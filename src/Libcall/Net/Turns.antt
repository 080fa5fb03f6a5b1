-- ===== src/Libcall/Net/Turns.antt =====
-- The order in which `lc_net_input` (src/libcall.c) serves the lines.
use native.Mathlib.Decide.{dec_lt, ℕ_discrete}
use sin.Libcall.Net.{is_active_at, next_conn, find_activity, turn}
use sin.Network.{Line}
use sin.Prelude.{
  ℕ, zero, suc, ◌+◌, ◌-◌, ◌≤◌, ◌<◌, ◌≡◌, ◌≢◌, inl, inr, Bool-cases, lt→ltb, le→ltb, true, false,
  List, length, ltb, if◌then◌else◌, not, ◌&&◌, arith,
}

-- `p` is the first line from `l` on with activity, or the end of the table.
pub record Stops (lines : List Line) (l p : ℕ) : Type 0 where
  pub from : l ≤ p
  pub within : p ≤ length lines
  pub active : p < length lines → is_active_at lines p ≡ true
  pub passed : (k : ℕ) → l ≤ k → k < p → is_active_at lines k ≡ false

find_activity-Stops :
    (fuel : ℕ) (lines : List Line) (l : ℕ)
    → length lines ≤ fuel + l
    → l ≤ length lines
    → Stops lines l (find_activity fuel lines l)
unfolding find_activity
find_activity-Stops zero lines l enough h = record {
  from = omega arith;
  within = h;
  active = λ lt. absurd (omega arith);
  passed = λ k x y. absurd (omega arith);
}
find_activity-Stops (suc fuel) lines l enough h =
    elim (Bool-cases (ltb l (length lines) && not (is_active_at lines l))) [
      | inl go ↦
          let lt : l < length lines = ground arith in
          let idle : is_active_at lines l ≡ false = ground arith in
          let s = find_activity-Stops fuel lines (l + 1) (omega arith) (omega arith) in
          rw go (record {
            from = (let x = s.from in omega arith);
            within = s.within;
            active = s.active;
            passed = λ k x y. elim (ℕ_discrete l k) [
              | yes e ↦ rw (← e) idle
              | no ne ↦ s.passed k (omega arith) y
            ];
          })
      | inr stop ↦ rw stop (record {
        from = omega arith;
        within = h;
        active = λ lt. ground arith;
        passed = λ k x y. absurd (omega arith);
      })
    ]

-- A call looks at the lines behind the last one that was served, and after the end of the table at
-- all of them.
pub turn-Stops :
    (lines : List Line) (lastconn : ℕ)
    → 1 ≤ length lines
    → length lines < 256
    → lastconn ≤ length lines
    → Stops lines
        (if ltb (lastconn + 1) (length lines) then lastconn + 1 else 0)
        (turn lines lastconn)
unfolding turn next_conn
turn-Stops lines lastconn some_line few h = elim (dec_lt (lastconn + 1) (length lines)) [
  | yes lt ↦
      let start : next_conn (length lines) lastconn ≡ lastconn + 1 = ground arith in
      rw (lt→ltb (lastconn + 1) (length lines) lt, start)
        (find_activity-Stops (length lines) lines (lastconn + 1) (omega arith) (omega arith))
  | no ge ↦
      let start : next_conn (length lines) lastconn ≡ 0 = ground arith in
      rw (le→ltb (lastconn + 1) (length lines) (omega arith), start)
        (find_activity-Stops (length lines) lines 0 (omega arith) (omega arith))
]

-- How many calls line `l` of `n` may still wait.
wait : ℕ → ℕ → ℕ → ℕ
wait n l p = if ltb p l then l - p else n - p + l + 1

-- A scan that starts at an active line or before it does not go past it.
not_past :
    {lines : List Line} {start p : ℕ} (l : ℕ)
    → Stops lines start p
    → is_active_at lines l ≡ true
    → start ≤ l
    → p ≤ l
not_past {p = p} l s active h = elim (dec_lt l p) [
  | yes past ↦ absurd (let e = s.passed l h past in cc)
  | no not_yet ↦ omega arith
]

closer :
    (lines : List Line) (l p : ℕ)
    → length lines < 256
    → p ≤ length lines
    → l < length lines
    → is_active_at lines l ≡ true
    → turn lines p ≢ l
    → wait (length lines) l (turn lines p) < wait (length lines) l p
unfolding wait
closer lines l p few h lt active ne = elim (dec_lt (p + 1) (length lines)) [
  | yes more ↦
      (let s : Stops lines (p + 1) (turn lines p) =
          rw (lt→ltb (p + 1) (length lines) more) at (turn-Stops lines p (omega arith) few h) in
        let from = s.from in
        let within = s.within in
        let past = not_past l s active in
        elim (dec_lt p l) [
          | yes before ↦ (let le = past (omega arith) in ground arith)
          | no behind ↦ ground arith
        ])
  | no last ↦
      (let s : Stops lines 0 (turn lines p) =
          rw (le→ltb (p + 1) (length lines) (omega arith)) at
            (turn-Stops lines p (omega arith) few h) in
        let le = not_past l s active (omega arith) in ground arith)
]

-- `config.lastconn` after `k` calls, where the table is `tables j` at the call of number `j`.
unfoldable pub conn_after : (ℕ → List Line) → ℕ → ℕ → ℕ
conn_after tables p zero = p
conn_after tables p (suc k) = conn_after (λ j. tables (suc j)) (turn (tables 0) p) k

closer_in :
    (lines : List Line) (n l p : ℕ)
    → length lines ≡ n
    → n < 256
    → p ≤ n
    → l < n
    → is_active_at lines l ≡ true
    → turn lines p ≢ l
    → wait n l (turn lines p) < wait n l p
closer_in lines n l p size few h lt active ne =
    rw (← size) (closer lines l p (omega arith) (omega arith) (omega arith) active ne)

turn_within :
    (lines : List Line) (n p : ℕ) → length lines ≡ n → n < 256 → 1 ≤ n → p ≤ n → turn lines p ≤ n
turn_within lines n p size few some_line h =
    let s = turn-Stops lines p (omega arith) (omega arith) (omega arith) in
    let within = s.within in omega arith

served_soon :
    (m : ℕ) (tables : ℕ → List Line) (n l p : ℕ)
    → ((k : ℕ) → length (tables k) ≡ n)
    → ((k : ℕ) → is_active_at (tables k) l ≡ true)
    → n < 256
    → l < n
    → p ≤ n
    → wait n l p ≤ m
    → (k : ℕ) × (k < suc m) × (conn_after tables p (suc k) ≡ l)
unfolding conn_after
served_soon zero tables n l p sized active few lt h bound =
    elim (ℕ_discrete (turn (tables 0) p) l) [
      | yes e ↦ (0, omega arith, e)
      | no ne ↦
          absurd
            (let c = closer_in (tables 0) n l p (sized 0) few h lt (active 0) ne in omega arith)
    ]
served_soon (suc m) tables n l p sized active few lt h bound =
    elim (ℕ_discrete (turn (tables 0) p) l) [
      | yes e ↦ (0, omega arith, e)
      | no ne ↦
          let c = closer_in (tables 0) n l p (sized 0) few h lt (active 0) ne in
          let within = turn_within (tables 0) n p (sized 0) few (omega arith) h in
          let (k, le, e) =
            served_soon m (λ j. tables (suc j)) n l (turn (tables 0) p) (λ j. sized (suc j))
              (λ j. active (suc j)) few lt within (omega arith) in
          (suc k, omega arith, e)
    ]

-- No line starves: a line `l` that has activity at every call is served by one of the next `n + 2`
-- calls, where `n`, less than 256, is the number of lines, whatever the other lines do meanwhile.
pub conn_after-served :
    (tables : ℕ → List Line) (n l p : ℕ)
    → ((k : ℕ) → length (tables k) ≡ n)
    → ((k : ℕ) → is_active_at (tables k) l ≡ true)
    → n < 256
    → l < n
    → p ≤ n
    → (k : ℕ) × (k ≤ n + 1) × (conn_after tables p (suc k) ≡ l)
unfolding wait
conn_after-served tables n l p sized active few lt h =
    let (k, bound, e) = served_soon (wait n l p) tables n l p sized active few lt h (omega arith) in
    (k, ground arith, e)
