-- ===== src/Packs/Seeds.antt =====
-- What the catalogs and the seeds give.
use dispatch_core.Shared.{
  string_eq, ◌==◌, false, ◌≡◌, String, List, [], ◌∷◌, arith, eq_iff, any, All, map,
}
use dispatch_core.Domain.Errors.{ok}
use dispatch_core.Domain.WorkOrder.{PoolMode}
use dispatch_core.Packs.Data.{
  IndustryPack, PackDefinition, ServiceCatalog, ServiceCategory, check_pack, check_catalog,
  check_field, has_repeat, label_for, label_among,
}
use dispatch_core.Packs.Industry.{field_service, local_delivery, guided_route, municipal_work}

-- A pack all of whose constructors accept what they are given.
pub record IsPack (p : IndustryPack) : Type 0 where
  pub pack : check_pack p ≡ ok p
  pub catalog : check_catalog p.service_catalog ≡ ok p.service_catalog
  pub fields : All (λ f. check_field f ≡ ok f) p.fields

-- The packs that the repository ships, by their identifiers.
pub data Shipped : String → IndustryPack → Type 0 where
  service : Shipped "field_service" field_service
  delivery : Shipped "local_delivery" local_delivery
  route : Shipped "guided_route" guided_route
  municipal : Shipped "municipal_work" municipal_work

-- What a seed comes from: the shipped pack of the identifier, whose parts the definition has, and
-- beside them the default labels of the roles and a curated pool.
pub record IsSeed (id : String) (d : PackDefinition) : Type 0 where
  pub source : IndustryPack
  pub shipped : Shipped id source
  pub identified : source.pack_id ≡ id
  pub accepted : IsPack source
  pub branding : d.branding ≡ source.branding
  pub service_catalog : d.service_catalog ≡ source.service_catalog
  pub fields : d.fields ≡ source.fields
  pub evidence : d.evidence ≡ source.completion_evidence
  pub role_labels :
      d.role_labels ≡ ("master", "Мастер") ∷ ("operator", "Оператор") ∷ ("client", "Клиент") ∷ []
  pub default_pool_mode : d.default_pool_mode ≡ PoolMode.curated

-- A category in front whose key none of the others has changes none of their labels.
label_among-front :
    (c : ServiceCategory) (cs ds : List ServiceCategory)
    → any (λ j. j == c.key) (map (λ d. d.key) ds) ≡ false
    → All (λ d. label_among cs d.key ≡ d.label) ds
    → All (λ d. label_among (c ∷ cs) d.key ≡ d.label) ds
unfolding label_among
label_among-front c cs [] h labels = tt
label_among-front c cs (d ∷ ds) h labels = (
  ground (arith, eq_iff d.key c.key, eq_iff c.key d.key),
  label_among-front c cs ds (ground arith) labels.1,
)

label_among_found :
    (cs : List ServiceCategory)
    → has_repeat (map (λ c. c.key) cs) ≡ false
    → All (λ c. label_among cs c.key ≡ c.label) cs
unfolding has_repeat
label_among_found [] h = tt
label_among_found (c ∷ cs) h = (
  unfold label_among in ground (arith, eq_iff c.key c.key),
  label_among-front c cs cs (ground arith) (label_among_found cs (ground arith)),
)

-- A catalog that its constructor accepts gives for the key of each of its categories the category's own
-- label.
pub label_for_found :
    (c : ServiceCatalog)
    → check_catalog c ≡ ok c
    → All (λ x. label_for c x.key ≡ x.label) c.categories
unfolding label_for check_catalog
label_for_found c h = label_among_found c.categories (ground arith)
