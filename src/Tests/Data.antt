-- ===== src/Tests/Data.antt =====
-- Concrete token pallets and a concrete fraction, with the laws that the theorems assume of them.
use can_bus.Base.{
  ℕ, suc, ◌^◌, ◌≡◌, ◌≢◌, refl, ◌+◌, ◌-◌, ◌*◌, ◌/◌, Option, none, some, leb, ◌&&◌, if◌then◌else◌,
  arith, min,
}
use can_bus.Frame.Error.{other}
use can_bus.Frame.Call.{Call, ok, err}
use can_bus.Frame.Storage.{insert, insert₂}
use can_bus.Frame.Tokens.{Tokens, TokenLaws, TransferLaws}
use can_bus.Frame.Perquintill.{Perquintill, PerquintillLaws, accuracy}

-- Balances and issuances by currency, the native token's under zero.
pub record Books : Type 0 where
  pub held : ℕ → ℕ → ℕ
  pub supply : ℕ → ℕ

abbrev pub slot : Option ℕ → ℕ
slot none = 0
slot (some a) = suc a

abbrev pub mint_books : Option ℕ → ℕ → ℕ → Call Books ℕ
mint_books c who n w = (
  ok n,
  record {
    held = insert₂ (slot c) who (w.held (slot c) who + n) w.held;
    supply = insert (slot c) (w.supply (slot c) + n) w.supply;
  },
)

abbrev pub burn_books : Option ℕ → ℕ → ℕ → Call Books ℕ
burn_books c who n w =
    if leb n (w.held (slot c) who) && (leb n (w.supply (slot c)) && leb n (2 ^ 128 - 1))
    then (
      ok n,
      record {
        held = insert₂ (slot c) who (w.held (slot c) who - n) w.held;
        supply = insert (slot c) (w.supply (slot c) - n) w.supply;
      },
    )
    else (err (other 0), w)

abbrev pub transfer_books : Option ℕ → ℕ → ℕ → ℕ → Call Books (Unit {0})
transfer_books c who to n w =
    let less = insert₂ (slot c) who (w.held (slot c) who - n) w.held in
    if leb n (w.held (slot c) who)
    then (ok tt, record w { held = insert₂ (slot c) to (less (slot c) to + n) less })
    else (err (other 0), w)

abbrev pub tokens : Tokens
tokens = record {
  World = Books;
  balance = λ c a w. w.held (slot c) a;
  issuance = λ c w. w.supply (slot c);
  minimum_balance = λ c w. 1;
  mint_into = mint_books;
  burn_from = burn_books;
  transfer = transfer_books;
}

pub tokens-TokenLaws : TokenLaws tokens
tokens-TokenLaws = record {
  mint_amount = λ c who n r w w' h. ground arith;
  mint_balance = λ c who n r w w' h. ground arith;
  mint_issuance = λ c who n r w w' h. ground arith;
  mint_others = λ c who n r w w' h a ne. ground arith;
  burn_amount = λ c who n r w w' h. (ground arith, ground arith);
  burn_balance = λ c who n r w w' h. ground arith;
  burn_issuance = λ c who n r w w' h. ground arith;
  burn_exact = λ c who n r w w' h kept. (ground arith, ground arith, ground arith);
  burn_others = λ c who n r w w' h a ne. ground arith;
}

slot_injective : (c d : Option ℕ) → slot d ≡ slot c → d ≡ c
slot_injective none none h = refl
slot_injective none (some b) h = absurd (ground arith)
slot_injective (some a) none h = absurd (ground arith)
slot_injective (some a) (some b) h = ground arith

other_slot :
    (c d : Option ℕ) (source dest n : ℕ) (w w' : Books) (a : ℕ)
    → d ≢ c
    → transfer_books c source dest n w ≡ (ok tt, w')
    → w'.held (slot d) a ≡ w.held (slot d) a
other_slot c d source dest n w w' a ne h =
    let apart : slot d ≢ slot c = λ e. ne (slot_injective c d e) in ground (arith, apart)

pub tokens-TransferLaws : TransferLaws tokens
tokens-TransferLaws = record {
  transfer_source = λ asset source dest n w w' h ne. ground arith;
  transfer_dest = λ asset source dest n w w' h ne. ground arith;
  transfer_currencies = λ c source dest n w w' h d a ne. other_slot c d source dest n w w' a ne h;
}

-- Rounded down and capped at one.
abbrev pub fraction : Perquintill
fraction = record {
  from_rational = λ p q. min (p * accuracy / q) accuracy;
  mul = λ r x. min (r * x / accuracy) x;
}

pub fraction-PerquintillLaws : PerquintillLaws fraction
fraction-PerquintillLaws = record {
  from_rational-le-one = λ a b. omega arith;
  mul-le = λ r x h. omega arith;
}

-- A thousand of each currency at every account.
abbrev pub books : Books
books = record { held = λ c a. 1000; supply = λ c. 100000 }
