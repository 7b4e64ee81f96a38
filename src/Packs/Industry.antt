-- ===== src/Packs/Industry.antt =====
-- The packs that src/dispatch_core/packs/catalog.py ships, and the lookup of a pack's definition.
use dispatch_core.Shared.{string_eq, true, false, String, Option, none, some, List, [], ◌∷◌}
use dispatch_core.Shared.Dict.{Dict, get, put}
use dispatch_core.Domain.Errors.{Result, ok, err, value_error, Invalid}
use dispatch_core.Domain.WorkOrder.{PoolMode, no_evidence}
use dispatch_core.Packs.Data.{
  pos, FieldType, IndustryPack, PackDefinition, to_definition, default_role_labels,
}

abbrev pub field_service : IndustryPack
field_service = record {
  pack_id = "field_service";
  title = "Выездной сервис";
  work_types = "repair" ∷ "maintenance" ∷ "installation" ∷ "inspection" ∷ [];
  branding = record {
    name = "Выездной сервис";
    greeting = "Здравствуйте! Выберите услугу, и мы примем вашу заявку.";
    support = "";
  };
  service_catalog = record {
    categories =
        (record { key = "repair"; label = "Ремонт" })
        ∷ (record { key = "maintenance"; label = "Обслуживание" })
        ∷ (record { key = "installation"; label = "Установка" })
        ∷ (record { key = "inspection"; label = "Диагностика" })
        ∷ [];
    multi_select = true;
  };
  fields =
      (record {
        key = "address";
        label = "Адрес";
        field_type = FieldType.address;
        required = true;
        choices = [];
        prompt = "Введите адрес объекта";
        order = pos 1;
      })
      ∷ (record {
        key = "asset";
        label = "Оборудование";
        field_type = FieldType.asset_reference;
        required = false;
        choices = [];
        prompt = "Укажите оборудование (или пропустите)";
        order = pos 2;
      })
      ∷ (record {
        key = "fault";
        label = "Неисправность или задача";
        field_type = FieldType.text;
        required = true;
        choices = [];
        prompt = "Опишите неисправность или задачу";
        order = pos 3;
      })
      ∷ [];
  completion_evidence = record {
    minimum_photos = 1;
    comment_required = true;
    signature_required = false;
    customer_code_required = false;
  };
  status = "template";
}

abbrev pub local_delivery : IndustryPack
local_delivery = record {
  pack_id = "local_delivery";
  title = "Локальная доставка";
  work_types = "pickup" ∷ "delivery" ∷ "pickup_and_delivery" ∷ "return" ∷ [];
  branding = record {
    name = "Локальная доставка";
    greeting = "Здравствуйте! Выберите тип доставки.";
    support = "";
  };
  service_catalog = record {
    categories =
        (record { key = "pickup"; label = "Приёмка" })
        ∷ (record { key = "delivery"; label = "Доставка" })
        ∷ (record { key = "pickup_and_delivery"; label = "Приёмка и доставка" })
        ∷ (record { key = "return"; label = "Возврат" })
        ∷ [];
    multi_select = true;
  };
  fields =
      (record {
        key = "origin";
        label = "Откуда";
        field_type = FieldType.address;
        required = true;
        choices = [];
        prompt = "Введите адрес отправления";
        order = pos 1;
      })
      ∷ (record {
        key = "destination";
        label = "Куда";
        field_type = FieldType.address;
        required = true;
        choices = [];
        prompt = "Введите адрес назначения";
        order = pos 2;
      })
      ∷ (record {
        key = "cargo";
        label = "Груз";
        field_type = FieldType.text;
        required = true;
        choices = [];
        prompt = "Опишите груз";
        order = pos 3;
      })
      ∷ (record {
        key = "recipient";
        label = "Получатель";
        field_type = FieldType.text;
        required = false;
        choices = [];
        prompt = "Укажите получателя (или пропустите)";
        order = pos 4;
      })
      ∷ [];
  completion_evidence = record {
    minimum_photos = 0;
    comment_required = false;
    signature_required = false;
    customer_code_required = true;
  };
  status = "template";
}

abbrev pub guided_route : IndustryPack
guided_route = record {
  pack_id = "guided_route";
  title = "Туристический или групповой маршрут";
  work_types = "excursion" ∷ "transfer" ∷ "guided_route" ∷ "equipment_handoff" ∷ [];
  branding = record {
    name = "Групповой маршрут";
    greeting = "Здравствуйте! Выберите формат маршрута.";
    support = "";
  };
  service_catalog = record {
    categories =
        (record { key = "excursion"; label = "Экскурсия" })
        ∷ (record { key = "transfer"; label = "Трансфер" })
        ∷ (record { key = "guided_route"; label = "Сопровождение" })
        ∷ (record { key = "equipment_handoff"; label = "Выдача снаряжения" })
        ∷ [];
    multi_select = true;
  };
  fields =
      (record {
        key = "departure";
        label = "Точка отправления";
        field_type = FieldType.address;
        required = true;
        choices = [];
        prompt = "Введите точку отправления";
        order = pos 1;
      })
      ∷ (record {
        key = "route";
        label = "Маршрут";
        field_type = FieldType.route;
        required = true;
        choices = [];
        prompt = "Опишите маршрут";
        order = pos 2;
      })
      ∷ (record {
        key = "group_size";
        label = "Размер группы";
        field_type = FieldType.integer;
        required = true;
        choices = [];
        prompt = "Укажите размер группы";
        order = pos 3;
      })
      ∷ (record {
        key = "equipment";
        label = "Снаряжение";
        field_type = FieldType.text;
        required = false;
        choices = [];
        prompt = "Укажите снаряжение (или пропустите)";
        order = pos 4;
      })
      ∷ [];
  completion_evidence = record {
    minimum_photos = 0;
    comment_required = true;
    signature_required = false;
    customer_code_required = false;
  };
  status = "template";
}

abbrev pub municipal_work : IndustryPack
municipal_work = record {
  pack_id = "municipal_work";
  title = "Муниципальное или коммунальное поручение";
  work_types = "incident" ∷ "repair" ∷ "inspection" ∷ "scheduled_round" ∷ [];
  branding = record {
    name = "Коммунальная служба";
    greeting = "Здравствуйте! Выберите тип обращения.";
    support = "";
  };
  service_catalog = record {
    categories =
        (record { key = "incident"; label = "Инцидент" })
        ∷ (record { key = "repair"; label = "Ремонт" })
        ∷ (record { key = "inspection"; label = "Осмотр" })
        ∷ (record { key = "scheduled_round"; label = "Плановый обход" })
        ∷ [];
    multi_select = true;
  };
  fields =
      (record {
        key = "zone";
        label = "Район или зона";
        field_type = FieldType.text;
        required = true;
        choices = [];
        prompt = "Укажите район или зону";
        order = pos 1;
      })
      ∷ (record {
        key = "asset";
        label = "Объект инфраструктуры";
        field_type = FieldType.asset_reference;
        required = false;
        choices = [];
        prompt = "Укажите объект (или пропустите)";
        order = pos 2;
      })
      ∷ (record {
        key = "priority";
        label = "Приоритет";
        field_type = FieldType.enumeration;
        required = true;
        choices = "routine" ∷ "urgent" ∷ "emergency" ∷ [];
        prompt = "Выберите приоритет: routine / urgent / emergency";
        order = pos 3;
      })
      ∷ (record {
        key = "request";
        label = "Сообщение или дефект";
        field_type = FieldType.text;
        required = false;
        choices = [];
        prompt = "Опишите сообщение или дефект (или пропустите)";
        order = pos 4;
      })
      ∷ [];
  completion_evidence = record {
    minimum_photos = 1;
    comment_required = true;
    signature_required = false;
    customer_code_required = false;
  };
  status = "template";
}

abbrev pub industry_packs : List IndustryPack
industry_packs = field_service ∷ local_delivery ∷ guided_route ∷ municipal_work ∷ []

-- `{pack.pack_id: pack for pack in packs}`
abbrev index_from : Dict String IndustryPack → List IndustryPack → Dict String IndustryPack
index_from d [] = d
index_from d (p ∷ ps) = index_from (put d p.pack_id p) ps

unfoldable pub industry_pack_index : Dict String IndustryPack
unfolding put
industry_pack_index = index_from [] industry_packs

abbrev definition_of : Option IndustryPack → Result PackDefinition
definition_of none = err (value_error Invalid.unknown_pack)
definition_of (some p) = ok (to_definition p)

unfoldable pub seed_definition : String → Result PackDefinition
seed_definition pack_id = definition_of (get industry_pack_index pack_id)

unfoldable pub blank_definition : PackDefinition
blank_definition = record {
  branding = record { name = ""; greeting = ""; support = "" };
  service_catalog = record { categories = []; multi_select = true };
  fields = [];
  evidence = no_evidence;
  role_labels = default_role_labels;
  default_pool_mode = PoolMode.curated;
}
