-- ===== src/OrderBook/Models/Keys.antt =====
-- The keys of order_book/: their test is equality.
use quant_execution_engine.Prelude.{
  ◌≡◌, subst, true, false, arith, eq_of_same_text, same_text_refl, Bool-cases, inl, inr,
}
use quant_execution_engine.Contracts.Enums.{Market, same_market}
use quant_execution_engine.OrderBook.Models.{Key, same_key}

eq_of_same_market : (m n : Market) → same_market m n ≡ true → m ≡ n
eq_of_same_market m n h = ground arith

pub eq_of_same_key : (k l : Key) → same_key k l ≡ true → k ≡ l
unfolding same_key
eq_of_same_key k l h =
    let text = eq_of_same_text k.symbol l.symbol (ground (arith, h)) in
    let markets = eq_of_same_market k.market l.market (ground (arith, h)) in
    λ i. record { symbol = text i; market = markets i }

pub same_key_refl : (k : Key) → same_key k k ≡ true
unfolding same_key
same_key_refl k = ground (arith, same_text_refl k.symbol)

-- Keys that differ differ in either order.
pub other_key : (k l : Key) → same_key k l ≡ false → same_key l k ≡ false
other_key k l h = elim (Bool-cases (same_key l k)) [
  | inl e ↦
      (let same : same_key k l ≡ true =
          subst (λ m. same_key m l ≡ true) (eq_of_same_key l k e) (same_key_refl l) in
        cc)
  | inr e ↦ e
]
