-- ===== src/Bus/Routing.antt =====
-- Where a transaction goes.
use symex_vp.Common.{
  ℕ, zero, suc, ◌+◌, ◌-◌, ◌≤◌, ◌≡◌, refl, ap, ◌∙◌, Bool, true, false, ◌&&◌, ltb, if_cases, List, [],
  ◌∷◌, Option, none, some, get_elem?, arith,
}
use symex_vp.Bus.Port.{PortMapping, contains, global_to_local, decode_from, decode, transport}

-- Whether port `j` of the list contains the address.
abbrev pub takes : List PortMapping → ℕ → ℕ → Bool
takes ports addr j = elim (get_elem? ports j) [ none ↦ false | some m ↦ contains m addr ]

-- An address that no port contains is refused; any other goes to the first port that contains it, at
-- its offset in that port.
pub data IsRouted (ports : List PortMapping) (addr : ℕ) (r : Option (ℕ × ℕ)) : Type 0 where
  refused : r ≡ none → ((j : ℕ) → takes ports addr j ≡ false) → IsRouted ports addr r
  routed :
      (id : ℕ) (m : PortMapping)
      → r ≡ some (id, addr - m.start)
      → get_elem? ports id ≡ some m
      → m.start ≤ addr
      → addr ≤ m.end
      → ((j : ℕ) → (ltb j id && takes ports addr j) ≡ false)
      → IsRouted ports addr r

-- The loop's result `i + k` for the first port `k` of the rest.
data Found (i : ℕ) (ports : List PortMapping) (addr : ℕ) : Option ℕ → Type 0 where
  none_found : ((j : ℕ) → takes ports addr j ≡ false) → Found i ports addr none
  found :
      (k n : ℕ) (m : PortMapping)
      → n ≡ i + k
      → get_elem? ports k ≡ some m
      → contains m addr ≡ true
      → ((j : ℕ) → (ltb j k && takes ports addr j) ≡ false)
      → Found i ports addr (some n)

next-Found :
    (i : ℕ) (m : PortMapping) (ports : List PortMapping) (addr : ℕ) (o : Option ℕ)
    → contains m addr ≡ false
    → Found (suc i) ports addr o
    → Found i (m ∷ ports) addr o
next-Found i m ports addr none skip (none_found none_takes) = none_found go
  where
    go : (j : ℕ) → takes (m ∷ ports) addr j ≡ false
    go zero = skip
    go (suc j) = none_takes j
next-Found i m ports addr (some n) skip (found k n' m' e at takes_it first) =
    found (suc k) n m' (omega arith) at takes_it go
  where
    go : (j : ℕ) → (ltb j (suc k) && takes (m ∷ ports) addr j) ≡ false
    go zero = ground (arith, skip)
    go (suc j) = ground (arith, first j)

decode_from-Found :
    (i : ℕ) (ports : List PortMapping) (addr : ℕ) → Found i ports addr (decode_from i ports addr)
unfolding decode_from
decode_from-Found i [] addr = none_found (λ j. refl)
decode_from-Found i (m ∷ ports) addr =
    if_cases (Found i (m ∷ ports) addr) (contains m addr) (some i) (decode_from (suc i) ports addr)
      (λ e. found 0 i m (omega arith) refl e (λ j. ground arith))
      (λ skip. next-Found i m ports addr _ skip (decode_from-Found (suc i) ports addr))

start_le : (m : PortMapping) (addr : ℕ) → contains m addr ≡ true → m.start ≤ addr
unfolding contains
start_le m addr h = ground (arith, h)

le_end : (m : PortMapping) (addr : ℕ) → contains m addr ≡ true → addr ≤ m.end
unfolding contains
le_end m addr h = ground (arith, h)

routed_lem :
    (ports : List PortMapping) (addr : ℕ)
    → Found 0 ports addr (decode ports addr)
    → IsRouted ports addr (transport ports addr)
unfolding transport global_to_local
routed_lem ports addr f = go (decode ports addr) f
  where
    go :
        (o : Option ℕ)
        → Found 0 ports addr o
        → IsRouted ports addr (elim o [
          | none ↦ none
          | some id ↦ (elim (get_elem? ports id) [
            | none ↦ none
            | some m ↦ some (id, global_to_local m addr)
          ])
        ])
    go none (none_found none_takes) = refused refl none_takes
    go (some n) (found k n' m e at takes_it first) =
        (let same : n ≡ k = omega arith in
          let at_n : get_elem? ports n ≡ some m = ap (get_elem? ports) same ∙ at in
          routed n m (rw at_n refl) at_n (start_le m addr takes_it) (le_end m addr takes_it)
            (λ j. ap (λ t. ltb j t && takes ports addr j) same ∙ first j))

-- A transaction with an address that no port contains gets the address error; any other goes to the
-- first port that contains the address, with its offset in that port.
pub transport-IsRouted :
    (ports : List PortMapping) (addr : ℕ) → IsRouted ports addr (transport ports addr)
unfolding decode
transport-IsRouted ports addr = routed_lem ports addr (decode_from-Found 0 ports addr)
