-- ===== src/Bus/Port.antt =====
-- The routing of transactions by `SimpleBus` in vp/src/platform/common/bus.h.
use symex_vp.Common.{
  ℕ, ◌-◌, suc, Bool, ◌&&◌, leb, if◌then◌else◌, List, [], ◌∷◌, Option, none, some, get_elem?,
}

pub record PortMapping : Type 0 where
  pub start : ℕ
  pub end : ℕ

unfoldable pub contains : PortMapping → ℕ → Bool
contains m addr = leb m.start addr && leb addr m.end

unfoldable pub global_to_local : PortMapping → ℕ → ℕ
global_to_local m addr = addr - m.start

-- The loop from port `i` on; `none` is the result -1.
unfoldable pub decode_from : ℕ → List PortMapping → ℕ → Option ℕ
decode_from i [] addr = none
decode_from i (m ∷ ports) addr =
    let rest = decode_from (suc i) ports addr in if contains m addr then some i else rest

unfoldable pub decode : List PortMapping → ℕ → Option ℕ
decode ports addr = decode_from 0 ports addr

-- The target and its local address; `none` for the response TLM_ADDRESS_ERROR_RESPONSE.
unfoldable pub transport : List PortMapping → ℕ → Option (ℕ × ℕ)
transport ports addr = elim (decode ports addr) [
  | none ↦ none
  | some id ↦ (elim (get_elem? ports id) [
    | none ↦ none
    | some m ↦ some (id, global_to_local m addr)
  ])
]
