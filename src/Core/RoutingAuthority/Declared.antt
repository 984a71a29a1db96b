-- ===== src/Core/RoutingAuthority/Declared.antt =====
-- What the EH6 guard of core/routing_authority.py lets through.
use quant_execution_engine.Prelude.{
  ◌≡◌, ◌≢◌, refl, sym, ◌↔◌, true, false, arith, String, List, [], ◌∷◌, ℕ, any, codes, strip,
  same_codes, eq_of_same_codes, Bool-cases, inl, inr,
}
use mathlib.Core.List.{Memᴰ}
use quant_execution_engine.Config.{Settings}
use quant_execution_engine.Contracts.Enums.{Broker}
use quant_execution_engine.Contracts.Errors.{ok}
use quant_execution_engine.Core.Stage.{Adapter, sim_adapter, is_real}
use quant_execution_engine.Core.RoutingAuthority.{
  authorized_accounts, assert_may_route_real, no_codes,
}

-- An account is declared if some entry of the setting is its text, but for the space around it, and
-- is not blank.
abbrev pub IsDeclared : String → List String → Type 0
IsDeclared account names =
    (name : String) × Memᴰ name names × (strip (codes name) ≡ codes account) × (codes account ≢ [])

abbrev later :
    (account a : String) (rest : List String)
    → IsDeclared account rest
    → IsDeclared account (a ∷ rest)
later account a rest (name, m, p, q) = (name, Memᴰ.tail m, p, q)

ne_nil_of_no_codes : (xs : List ℕ) → no_codes xs ≡ false → xs ≢ []
ne_nil_of_no_codes [] h = cc
ne_nil_of_no_codes (x ∷ xs) h = λ e. cc

no_codes_of_ne_nil : (xs : List ℕ) → xs ≢ [] → no_codes xs ≡ false
no_codes_of_ne_nil [] h = absurd (h refl)
no_codes_of_ne_nil (x ∷ xs) h = refl

same_codes_refl : (xs : List ℕ) → same_codes xs xs ≡ true
same_codes_refl [] = refl
same_codes_refl (x ∷ xs) = ground (arith, same_codes_refl xs)

declared_found :
    (account : String) (names : List String)
    → any (same_codes (codes account)) (authorized_accounts names) ≡ true
    → IsDeclared account names
unfolding authorized_accounts
declared_found account [] h = cc
declared_found account (a ∷ rest) h = elim (Bool-cases (no_codes (strip (codes a)))) [
  | inl blank ↦ later account a rest (declared_found account rest (rw blank at h))
  | inr some_text ↦ elim (Bool-cases (same_codes (codes account) (strip (codes a)))) [
    | inl here ↦
        let e = eq_of_same_codes (codes account) (strip (codes a)) here in
        (a, Memᴰ.head refl, sym e, rw e (ne_nil_of_no_codes (strip (codes a)) some_text))
    | inr there ↦
        later account a rest
          (declared_found account rest (let h' = rw some_text at h in rw there at h'))
  ]
]

found_declared :
    (account : String) (names : List String)
    → IsDeclared account names
    → any (same_codes (codes account)) (authorized_accounts names) ≡ true
unfolding authorized_accounts
found_declared account [] d = elim d.1 [ ]
found_declared account (a ∷ rest) (name, Memᴰ.head e, p, q) =
    let p' : strip (codes a) ≡ codes account = rw e at p in
    rw p' (rw (no_codes_of_ne_nil (codes account) q, same_codes_refl (codes account)))
found_declared account (a ∷ rest) (name, Memᴰ.tail m, p, q) =
    let ih = found_declared account rest (name, m, p, q) in ground (arith, ih)

found_of_passed :
    (settings : Settings) (account : String) (broker : Broker) (adapter : Adapter)
    → is_real broker ≡ true
    → adapter ≢ sim_adapter
    → assert_may_route_real settings account broker adapter ≡ ok tt
    → any (same_codes (codes account)) (authorized_accounts settings.real_routing_accounts) ≡ true
unfolding assert_may_route_real
found_of_passed settings account broker adapter r n h = ground arith

passed_of_found :
    (settings : Settings) (account : String) (broker : Broker) (adapter : Adapter)
    → any (same_codes (codes account)) (authorized_accounts settings.real_routing_accounts) ≡ true
    → assert_may_route_real settings account broker adapter ≡ ok tt
unfolding assert_may_route_real
passed_of_found settings account broker adapter h = ground arith

-- A request on a real adapter passes the EH6 guard exactly if the account is declared. With nothing
-- declared, or only blanks, every such request is refused.
pub may_route_real_iff :
    (settings : Settings) (account : String) (broker : Broker) (adapter : Adapter)
    → is_real broker ≡ true
    → adapter ≢ sim_adapter
    → (assert_may_route_real settings account broker adapter ≡ ok tt)
      ↔ IsDeclared account settings.real_routing_accounts
may_route_real_iff settings account broker adapter r n = (
  λ h.
      declared_found account settings.real_routing_accounts
        (found_of_passed settings account broker adapter r n h),
  λ d.
      passed_of_found settings account broker adapter
        (found_declared account settings.real_routing_accounts d),
)
