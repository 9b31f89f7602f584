-- ===== src/Voice/Held.antt =====
-- Which PCM devices are open after a trace, read from the calls alone, and the invariant of a session.
use android_device_zte_fujis.Common.{
  ℕ, suc, ◌-◌, ◌≡◌, ◌∙◌, Bool, true, false, not, ◌&&◌, [], ◌∷◌, truthy, ◌==◌, if◌then◌else◌,
}
use android_device_zte_fujis.Voice.Types.{
  is_inactive, open_tx, open_rx, close_tx, close_rx, Env, Voice, Trace,
}

abbrev pub held_rx : Env → ℕ → Trace → ℕ
held_rx e i [] = 0
held_rx e i (open_rx j ∷ t) =
    let n = held_rx e i t in if j == i && truthy (e.result t (open_rx j)) then suc n else n
held_rx e i (close_rx j ∷ t) = let n = held_rx e i t in if j == i then n - 1 else n
held_rx e i (_ ∷ t) = held_rx e i t

abbrev pub held_tx : Env → ℕ → Trace → ℕ
held_tx e i [] = 0
held_tx e i (open_tx j ∷ t) =
    let n = held_tx e i t in if j == i && truthy (e.result t (open_tx j)) then suc n else n
held_tx e i (close_tx j ∷ t) = let n = held_tx e i t in if j == i then n - 1 else n
held_tx e i (_ ∷ t) = held_tx e i t

abbrev pub count : Bool → ℕ
count b = if b then 1 else 0

-- Session `i` has the PCM devices that are open, and `n` usecases.
pub record Held (e : Env) (i n : ℕ) (s : Voice) : Type 0 where
  pub has_rx : held_rx e i s.calls ≡ count (s.session i).pcm_rx
  pub has_tx : held_tx e i s.calls ≡ count (s.session i).pcm_tx
  pub listed : (s.session i).usecases ≡ n

-- A session that is not in a call has nothing open and no usecase, any other one usecase.
pub record IsSound (e : Env) (i : ℕ) (s : Voice) : Type 0 where
  pub held : Held e i (count (not (is_inactive (s.session i).current))) s
  pub no_rx : is_inactive (s.session i).current ≡ true → (s.session i).pcm_rx ≡ false
  pub no_tx : is_inactive (s.session i).current ≡ true → (s.session i).pcm_tx ≡ false

-- From `s` to `t` only session `i` may have changed, and its new state did not.
pub record Only (e : Env) (i : ℕ) (s t : Voice) : Type 0 where
  pub same : (j : ℕ) → (j == i) ≡ false → t.session j ≡ s.session j
  pub same_rx : (j : ℕ) → (j == i) ≡ false → held_rx e j t.calls ≡ held_rx e j s.calls
  pub same_tx : (j : ℕ) → (j == i) ≡ false → held_tx e j t.calls ≡ held_tx e j s.calls
  pub same_new : (t.session i).new ≡ (s.session i).new

pub Only-trans : {e : Env} {i : ℕ} {s t u : Voice} → Only e i s t → Only e i t u → Only e i s u
Only-trans p q = record {
  same = λ j h. q.same j h ∙ p.same j h;
  same_rx = λ j h. q.same_rx j h ∙ p.same_rx j h;
  same_tx = λ j h. q.same_tx j h ∙ p.same_tx j h;
  same_new = q.same_new ∙ p.same_new;
}
