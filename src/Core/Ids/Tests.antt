-- ===== src/Core/Ids/Tests.antt =====
-- The theorem on crates/kemuri-core/src/ids.rs at a concrete text.
use kemuri.Base.{◌≡◌, ◌↔◌}
use kemuri.Base.Text.{codes}
use kemuri.Core.Ids.{Identifier, ok, new, IsValidId, new_iff}

abbrev router : Identifier
router = record { text = codes "router-1" }

new_iff_example :
    (new (codes "target") (codes "router-1") ≡ ok router)
    ↔ (IsValidId (codes "router-1") × (router.text ≡ codes "router-1"))
new_iff_example = new_iff (codes "target") (codes "router-1") router
