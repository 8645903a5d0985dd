-- ===== src/Start/Pid.antt =====
-- The pid file: what one process writes, another reads.
use uaflow.Prelude.{
  ℕ, ◌^◌, ◌<◌, ◌≤◌, ◌≡◌, refl, sym, ap, ◌∙◌, true, false, Option, some, List, [], ◌∷◌, ◌++◌, arith,
  length, length-append, take-all, leb, ◌==◌, ◌&&◌, ◌||◌,
}
use uaflow.Prelude.Decimal.{
  is_digit, digits_value, decimal, decimal-head, digits_value-decimal, length-decimal,
}
use uaflow.Prelude.Int.{ℤ, pos}
use uaflow.Start.{pid_line, wr_pid, scan_int, scan_id, scan_bracket, kill_prefix, show_int, print}

scan_int-digit :
    (c : ℕ) (s : List ℕ)
    → is_digit c ≡ true
    → scan_int (c ∷ s) ≡ some (pos (digits_value 0 (c ∷ s)))
unfolding scan_int
scan_int-digit c s h =
    let blank : (c == b' ' || (leb 9 c && leb c 13)) ≡ false = ground arith in
    let minus : (c == b'-') ≡ false = ground arith in
    let plus : (c == b'+') ≡ false = ground arith in rw (blank, minus, plus, h)

scan_int-decimal :
    (n : ℕ) (s : List ℕ) → digits_value n s ≡ n → scan_int (decimal n ++ s) ≡ some (pos n)
scan_int-decimal n s stop =
    let (c, r, head, digit) = decimal-head n in
    let value : digits_value 0 (c ∷ r ++ s) ≡ n =
      ap (λ l. digits_value 0 (l ++ s)) (sym head) ∙ digits_value-decimal n s ∙ stop in
    rw head (scan_int-digit c (r ++ s) digit ∙ ap (λ k. some (pos k)) value)

-- After `flow_start_wr_pid` in a process with a number of at most ten digits, `flow_print` sends
-- its signal to that process, whatever the file held before.
pub print-wr_pid :
    (pid : ℕ) (id : ℤ) (file : Option (List ℕ))
    → pid < 10 ^ 10
    → print id (wr_pid true pid file).0 ≡ some (kill_prefix ++ decimal pid)
unfolding print wr_pid pid_line scan_id scan_bracket show_int
print-wr_pid pid id file h =
    let line = decimal pid ++ b']' ∷ 10 ∷ [] in
    let short : length line ≤ 1012 = omega (
      arith,
      length-append (decimal pid) (b']' ∷ 10 ∷ []),
      length-decimal 10 pid h (omega arith),
    ) in
    rw (
      take-all 1012 line short,
      scan_int-decimal pid (b']' ∷ 10 ∷ []) (unfold digits_value in refl),
    )
