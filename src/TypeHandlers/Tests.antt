-- ===== src/TypeHandlers/Tests.antt =====
-- The values of the two enums.
use ml_metadata_l_metadata_s.Prelude.{◌≡◌, ◌↔◌, some}
use ml_metadata_l_metadata_s.Status.{ok}
use ml_metadata_l_metadata_s.Messages.{execution, context}
use ml_metadata_l_metadata_s.Upsert.{get_system_type_extension}
use ml_metadata_l_metadata_s.TypeHandlers.{get_system_type_enum}
use ml_metadata_l_metadata_s.TypeHandlers.Base.{get_system_type_enum_iff}

execution_kind : ¬ (execution ≡ context)
execution_kind h = cc

get_system_type_enum_iff_example :
    (get_system_type_enum execution "mlmd.Evaluate" ≡ ok 4)
    ↔ (get_system_type_extension execution (some 4) ≡ ok "mlmd.Evaluate")
get_system_type_enum_iff_example =
    get_system_type_enum_iff execution 4 "mlmd.Evaluate" execution_kind
