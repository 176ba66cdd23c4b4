-- ===== src/Registry/Tests.antt =====
-- The default registry.
use zj_cyber_workbench.Prelude.{string_eq, any, ◌≡◌, refl, some, []}
use zj_cyber_workbench.Registry.{register, register_all, default_specs}

-- The default specifications are all registered, in their order.
default_registry : register_all default_specs [] ≡ some default_specs
unfolding register_all register any default_specs
default_registry = refl
