-- ===== src/Tests/Packs.antt =====
-- The shipped packs and their catalogs.
use dispatch_core.Shared.{◌≡◌, refl, All, string_eq}
use dispatch_core.Shared.Dict.{get, put}
use dispatch_core.Domain.Errors.{ok, err, value_error, Invalid}
use dispatch_core.Packs.Data.{check_catalog, has_repeat, label_for, label_among}
use dispatch_core.Packs.Industry.{seed_definition, industry_pack_index, guided_route}
use dispatch_core.Packs.Seeds.{label_for_found}

unknown_is_refused : seed_definition "taxi" ≡ err (value_error Invalid.unknown_pack)
unfolding seed_definition industry_pack_index get put
unknown_is_refused = refl

guided_route_accepted : check_catalog guided_route.service_catalog ≡ ok guided_route.service_catalog
unfolding check_catalog has_repeat
guided_route_accepted = refl

label_for_found_example :
    All
      (λ x. label_for guided_route.service_catalog x.key ≡ x.label)
      guided_route.service_catalog.categories
label_for_found_example = label_for_found guided_route.service_catalog guided_route_accepted

unknown_label : label_for guided_route.service_catalog "hike" ≡ "hike"
unfolding label_for label_among
unknown_label = refl
