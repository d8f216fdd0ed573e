-- ===== src/Context/Agree.antt =====
-- When two contexts are comparable.
use veyra_demo.Context.Compare.{confirmed}
use veyra_demo.Context.Resolve.{Snapshot}
use veyra_demo.Ledger.Platform.{Platform}
use veyra_demo.Prelude.{String, some, ◌≡◌}
use veyra_demo.Python.Text.{strip}

-- Both contexts confirm a value of the key, and the two are one text but for case and outer space.
abbrev pub Agrees : Platform → Snapshot → Snapshot → String → Type 0
Agrees p a b k =
    (v : String) × (w : String) × (confirmed a k ≡ some v)
    × (confirmed b k ≡ some w)
    × (p.casefold (strip v) ≡ p.casefold (strip w))
