-- ===== src/Usb/ListLines.antt =====
-- usb.c: the rates that `usb_get_sample_rates` stores for a line, and the lines for which it writes
-- behind the end of its array.
use android_device_zte_fujis.Common.{
  ℕ, zero, suc, ◌+◌, ◌≡◌, ◌≤◌, ◌<◌, refl, Bool, inl, inr, Bool-cases, Option, none, some, List, [],
  ◌∷◌, ◌++◌, ◌==◌, arith, length, if◌then◌else◌, append_assoc, append-nil, length-++, ltb, ◌⊎◌, sym,
}
use android_device_zte_fujis.Usb.Text.{
  Bytes, skip, strtok, token_of, length-skip, length-behind, atoi, uint32,
}
use android_device_zte_fujis.Usb.Rates.{
  Mask, Found, Reading, ok, overrun, invalid, unfinished, first_delims, list_delims, read_list,
  read_rate, get_sample_rates, store_matches, store, ◌>>=◌, max_sample_rate_size,
  supported_sample_rates,
}
use android_device_zte_fujis.Usb.RangeLines.{as_list, get_sample_rates_lists}

abbrev pub select : (ℕ → Bool) → List ℕ → List ℕ
select test [] = []
select test (r ∷ rs) = if test r then r ∷ select test rs else select test rs

-- The tokens of the text, by at most `fuel` calls.
abbrev pub tokens : ℕ → Bytes → List Bytes
tokens zero s = []
tokens (suc fuel) s = elim (strtok list_delims s) [
  | none ↦ []
  | some (token, rest) ↦ token ∷ tokens fuel rest
]

-- The supported rates that the tokens name, with repetitions.
abbrev pub named : List Bytes → List ℕ
named [] = []
named (t ∷ ts) = select (λ r. r == uint32 (atoi t)) supported_sample_rates ++ named ts

-- All of `rates` is stored, if the array has room for it; otherwise a write goes behind its end.
abbrev pub Stores : List ℕ → Reading → Type 0
Stores rates (ok f) = (f.rates ≡ rates) × (length rates ≤ max_sample_rate_size)
Stores rates overrun = max_sample_rate_size < length rates
Stores rates invalid = ⊥
Stores rates unfinished = ⊥

Stores-bind :
    (rates more : List ℕ) (r : Reading) (k : Found → Reading)
    → Stores rates r
    → ((f : Found)
        → f.rates ≡ rates
        → length f.rates ≤ max_sample_rate_size
        → Stores (f.rates ++ more) (k f))
    → Stores (rates ++ more) (r >>= k)
Stores-bind rates more (ok f) k (e, fits) next = rw (← e) (next f e (rw e fits))
Stores-bind rates more overrun k s next = omega (arith, length-++ rates more)
Stores-bind rates more invalid k s next = absurd s
Stores-bind rates more unfinished k s next = absurd s

store-Stores :
    (r i : ℕ) (f : Found)
    → length f.rates ≤ max_sample_rate_size
    → Stores (f.rates ++ r ∷ []) (store r i f)
store-Stores r i f fits = elim (Bool-cases (ltb (length f.rates) max_sample_rate_size)) [
  | inl room ↦ rw room (refl, ground (arith, length-++ f.rates (r ∷ [])))
  | inr full ↦ rw full (ground (arith, length-++ f.rates (r ∷ [])))
]

matches-Stores :
    (test : ℕ → Bool) (i : ℕ) (rs : List ℕ) (f : Found)
    → length f.rates ≤ max_sample_rate_size
    → Stores (f.rates ++ select test rs) (store_matches test i rs f)
unfolding store_matches
matches-Stores test i [] f fits = (sym (append-nil f.rates), rw (append-nil f.rates) fits)
matches-Stores test i (r ∷ rs) f fits = elim (Bool-cases (test r)) [
  | inl hit ↦
      rw (hit, store_matches)
        (rw (← append_assoc f.rates (r ∷ []) (select test rs)) (
          Stores-bind (f.rates ++ r ∷ []) (select test rs) (store r i f)
            (store_matches test (i + 1) rs) (store-Stores r i f fits)
            (λ g e p. matches-Stores test (i + 1) rs g p)))
  | inr miss ↦ rw (miss, store_matches) (matches-Stores test (i + 1) rs f fits)
]

rest_shorter :
    (delims s token rest : Bytes) → strtok delims s ≡ some (token, rest) → length rest < length s
unfolding strtok
rest_shorter delims s token rest e = go (skip delims s) (length-skip delims s) e
  where
    go :
        (t : Bytes)
        → length t ≤ length s
        → token_of delims t ≡ some (token, rest)
        → length rest < length s
    go [] p e = cc
    go (c ∷ t) p e = ground (arith, length-behind delims t)

pub strtok-cases :
    (delims s : Bytes)
    → (strtok delims s ≡ none)
      ⊎ ((token : Bytes) × (rest : Bytes) × (strtok delims s ≡ some (token, rest)))
strtok-cases delims s = cases (strtok delims s)
  where
    cases :
        (o : Option (Bytes × Bytes))
        → (o ≡ none) ⊎ ((token : Bytes) × (rest : Bytes) × (o ≡ some (token, rest)))
    cases none = inl refl
    cases (some (token, rest)) = inr (token, rest, refl)

list-Stores :
    (fuel : ℕ) (token rest : Bytes) (f : Found)
    → length rest < fuel
    → length f.rates ≤ max_sample_rate_size
    → Stores (f.rates ++ named (token ∷ tokens fuel rest)) (read_list fuel token rest f)
unfolding read_list
list-Stores zero token rest f enough fits = absurd (omega arith)
list-Stores (suc fuel) token rest f enough fits =
    let test : ℕ → Bool = λ r. r == uint32 (atoi token) in
    rw
      (← append_assoc f.rates (select test supported_sample_rates) (named (tokens (suc fuel) rest)))
      (Stores-bind (f.rates ++ select test supported_sample_rates) (named (tokens (suc fuel) rest))
        (read_rate token f) _ (matches-Stores test 0 supported_sample_rates f fits)
        (λ g e p. elim (strtok-cases list_delims rest) [
          | inl done ↦
              let empty : tokens (suc fuel) rest ≡ [] = rw (tokens, done) refl in
              rw (done, empty) (sym (append-nil g.rates), rw (append-nil g.rates) p)
          | inr (next, later, more) ↦
              let shorter = rest_shorter list_delims rest next later more in
              let split : tokens (suc fuel) rest ≡ next ∷ tokens fuel later =
                rw (tokens, more) refl in
              rw (more, split) (list-Stores fuel next later g (omega arith) p)
        ]))

-- A "Rates:" line with a token stores the supported rates that its tokens name, in their order and
-- with repetitions, if the array of 7 entries has room for them. Otherwise the code writes behind
-- the end of the array. The loop over the tokens ends.
pub get_sample_rates-Stores :
    (s token rest : Bytes) (m : Mask)
    → strtok first_delims s ≡ some (token, rest)
    → Stores (named (token ∷ tokens (length rest + 1) rest)) (get_sample_rates s m)
get_sample_rates-Stores s token rest m e =
    rw (get_sample_rates_lists s m, as_list, e)
      (list-Stores (length rest + 1) token rest (record { rates = []; mask = m }) (omega arith)
        (omega arith))
