-- ===== src/Ledger/Balance.antt =====
-- The books of src/engine/ledger.ts stay balanced.
use qrib.Common.{
  text_eq_sound, pos, ◌+ℤ◌, ◌-ℤ◌, ◌≤ℤ◌, text_eq_refl, ◌∷◌, ◌++◌, map, ◌≡◌, refl, inl, inr, int_laws,
  Bool-cases, All, if◌then◌else◌, text_eq, any, ◌∙◌, arith, ◌↔◌, ◌⊎◌, ◌≢◌, ap, Option-cases, some,
  List, ℤ, Text, Bool, true, false, [],
}
use qrib.Db.{
  Currency, idr, usdc, LedgerRow, World, ◌>>◌, ok, err, negative_leg, unbalanced, ◌>>=◌, Intent,
  Result, Fault, ⊤, plain_error,
}
use qrib.Ledger.{
  Entry, currency_eq, add_nets, ledger_row, payment_net, is_unbalanced, post_entries, insert_rows,
  has_negative_leg, find_intent, is_empty,
}

-- The net of the entries in a currency, as a plain sum.
abbrev pub net_of : Currency → List Entry → ℤ
net_of c [] = pos 0
net_of c (e ∷ rest) =
    if currency_eq e.currency c then e.debit -ℤ e.credit +ℤ net_of c rest else net_of c rest

pub add_nets-eq-net_of :
    (c : Currency) (net : ℤ) (entries : List Entry)
    → add_nets c net entries ≡ net +ℤ net_of c entries
unfolding add_nets
add_nets-eq-net_of c net [] = omega int_laws
add_nets-eq-net_of c net (e ∷ rest) = elim (Bool-cases (currency_eq e.currency c)) [
  | inl same ↦
      rw
        (
          add_nets-eq-net_of c
              (if currency_eq e.currency c then net +ℤ e.debit -ℤ e.credit else net) rest,
          same,
        )
        (omega int_laws)
  | inr other ↦
      rw
        (
          add_nets-eq-net_of c
              (if currency_eq e.currency c then net +ℤ e.debit -ℤ e.credit else net) rest,
          other,
        )
        refl
]

-- A posting that is accepted: no negative leg, and a net of 0 in each currency.
pub record IsBalanced (entries : List Entry) : Type 0 where
  pub legs : All (λ (e : Entry). (pos 0 ≤ℤ e.debit) × (pos 0 ≤ℤ e.credit)) entries
  pub idr_net : net_of idr entries ≡ pos 0
  pub usdc_net : net_of usdc entries ≡ pos 0

payment_net-rows_self :
    (id : Text) (c : Currency) (entries : List Entry) (rows : List LedgerRow)
    → payment_net id c (rows ++ map (ledger_row id) entries)
      ≡ payment_net id c rows +ℤ net_of c entries
unfolding payment_net ledger_row
payment_net-rows_self id c [] [] = omega int_laws
payment_net-rows_self id c (e ∷ rest) [] =
    grind (int_laws, payment_net-rows_self id c rest [], text_eq_refl id)
payment_net-rows_self id c entries (row ∷ rows) =
    grind (int_laws, payment_net-rows_self id c entries rows)

payment_net-rows_other :
    (id other : Text) (c : Currency) (entries : List Entry) (rows : List LedgerRow)
    → text_eq id other ≡ false
    → payment_net other c (rows ++ map (ledger_row id) entries) ≡ payment_net other c rows
unfolding payment_net ledger_row
payment_net-rows_other id other c [] [] ne = refl
payment_net-rows_other id other c (e ∷ rest) [] ne =
    ground (arith, payment_net-rows_other id other c rest [] ne)
payment_net-rows_other id other c entries (row ∷ rows) ne =
    ground (arith, payment_net-rows_other id other c entries rows ne)

no_negative_leg :
    (entries : List Entry)
    → (any has_negative_leg entries ≡ false)
      ↔ All (λ (e : Entry). (pos 0 ≤ℤ e.debit) × (pos 0 ≤ℤ e.credit)) entries
no_negative_leg [] = ground arith
no_negative_leg (e ∷ rest) = ground (arith, no_negative_leg rest)

is_unbalanced_iff :
    (c : Currency) (entries : List Entry)
    → (is_unbalanced c entries ≡ false) ↔ (net_of c entries ≡ pos 0)
is_unbalanced_iff c entries = rw (add_nets-eq-net_of c (pos 0) entries, plus_zero) (ground arith)
  where
    plus_zero : pos 0 +ℤ net_of c entries ≡ net_of c entries
    plus_zero = omega int_laws

-- What the database asks of an insert: there is a row to write, and the payment is there.
abbrev pub IsStorable : Text → List Entry → World → Type 0
IsStorable id entries w = (entries ≢ []) × ((i : Intent) × (find_intent id w ≡ some i))

clash : {b : Bool} → b ≡ true → b ≡ false → ⊥
clash e h = ground (arith, e, h)

empty-cases :
    (entries : List Entry)
    → ((is_empty entries ≡ true) × (entries ≡ [])) ⊎ ((is_empty entries ≡ false) × (entries ≢ []))
empty-cases [] = inl (refl, refl)
empty-cases (e ∷ rest) = inr (refl, λ h. absurd (ground (arith, h)))

-- `postEntries` writes its rows exactly where no leg is negative, each currency nets to 0, there is a
-- leg and the payment is there. Otherwise it throws, and writes nothing.
pub post_entries_outcome :
    (id : Text) (entries : List Entry) (w : World)
    → (IsBalanced entries
        × IsStorable id entries w
        × (post_entries id entries w ≡ (ok tt, insert_rows id entries w)))
      ⊎ (¬ (IsBalanced entries × IsStorable id entries w)
          × ((f : Fault) × (post_entries id entries w ≡ (err f, w))))
unfolding post_entries ◌>>◌ ◌>>=◌
post_entries_outcome id entries w = elim (Bool-cases (any has_negative_leg entries)) [
  | inl bad ↦
      inr ((λ h. clash bad ((no_negative_leg entries).1 h.0.legs)), (negative_leg, rw bad refl))
  | inr legs ↦ elim (Bool-cases (is_unbalanced idr entries)) [
    | inl bad ↦ inr (
      (λ h. clash bad ((is_unbalanced_iff idr entries).1 h.0.idr_net)),
      (unbalanced, rw (legs, bad) refl),
    )
    | inr idrs ↦ elim (Bool-cases (is_unbalanced usdc entries)) [
      | inl bad ↦ inr (
        (λ h. clash bad ((is_unbalanced_iff usdc entries).1 h.0.usdc_net)),
        (unbalanced, rw (legs, idrs, bad) refl),
      )
      | inr usdcs ↦ elim (empty-cases entries) [
        | inl (empty, nothing) ↦
            inr ((λ h. h.1.0 nothing), (plain_error, rw (legs, idrs, usdcs, empty) refl))
        | inr (filled, something) ↦ elim (Option-cases (find_intent id w)) [
          | inl missing ↦ inr (
            (λ h. absurd (ground (arith, missing, h.1.1.1))),
            (plain_error, rw (legs, idrs, usdcs, filled, missing) refl),
          )
          | inr (i, found) ↦ inl (
            record {
              legs = (no_negative_leg entries).0 legs;
              idr_net = (is_unbalanced_iff idr entries).0 idrs;
              usdc_net = (is_unbalanced_iff usdc entries).0 usdcs;
            },
            (something, (i, found)),
            rw (legs, idrs, usdcs, filled, found) refl,
          )
        ]
      ]
    ]
  ]
]

-- The books balance: every payment nets to 0 in every currency.
abbrev pub BooksBalance : World → Type 0
BooksBalance w = (id : Text) (c : Currency) → payment_net id c w.ledger ≡ pos 0

IsBalanced-net_of :
    (c : Currency) (entries : List Entry) → IsBalanced entries → net_of c entries ≡ pos 0
IsBalanced-net_of idr entries h = h.idr_net
IsBalanced-net_of usdc entries h = h.usdc_net

insert_rows-BooksBalance :
    (id : Text) (entries : List Entry) (w : World)
    → IsBalanced entries
    → BooksBalance w
    → BooksBalance (insert_rows id entries w)
unfolding insert_rows ◌+ℤ◌
insert_rows-BooksBalance id entries w bal books other c = elim (Bool-cases (text_eq id other)) [
  | inl same ↦ rw (← text_eq_sound id other same) (
      rw (payment_net-rows_self id c entries w.ledger, books id c, IsBalanced-net_of c entries bal)
        refl)
  | inr ne ↦ payment_net-rows_other id other c entries w.ledger ne ∙ books other c
]

pub post_entries-cases :
    (id : Text) (entries : List Entry) (w : World)
    → (IsBalanced entries × (post_entries id entries w ≡ (ok tt, insert_rows id entries w)))
      ⊎ ((post_entries id entries w).1 ≡ w)
post_entries-cases id entries w = elim (post_entries_outcome id entries w) [
  | inl (balanced, stored, e) ↦ inl (balanced, e)
  | inr (refused, (f, e)) ↦ inr (ap (λ (o : Result ⊤ × World). o.1) e)
]

-- Whatever is posted, the books of every payment balance after it if they did before.
pub post_entries-BooksBalance :
    (id : Text) (entries : List Entry) (w : World)
    → BooksBalance w
    → BooksBalance (post_entries id entries w).1
post_entries-BooksBalance id entries w books = elim (post_entries-cases id entries w) [
  | inl posted ↦ rw posted.1 (insert_rows-BooksBalance id entries w posted.0 books)
  | inr same ↦ rw same books
]

-- A posting writes to the ledger alone.
pub post_entries-frame :
    (id : Text) (entries : List Entry) (w : World)
    → ((post_entries id entries w).1.intents ≡ w.intents)
      × ((post_entries id entries w).1.attempts ≡ w.attempts)
      × ((post_entries id entries w).1.calls ≡ w.calls)
unfolding insert_rows
post_entries-frame id entries w = elim (post_entries-cases id entries w) [
  | inl posted ↦ rw posted.1 (refl, refl, refl)
  | inr same ↦ rw same (refl, refl, refl)
]
