-- ===== src/Start/Options.antt =====
-- The name of the log file and the background.
use uaflow.Prelude.{
  ℕ, ◌-◌, ◌≡◌, refl, ap, ◌∙◌, Bool, true, false, ◌||◌, Option, none, some, List, [], ◌∷◌, arith,
  if◌then◌else◌, length, take, get_elem?, Option-cases, inl, inr,
}
use uaflow.Prelude.CString.{
  eq_nocase, text, strncpy, get_elem?-strncpy, text-strncpy, text-strncpy_zeros,
}
use uaflow.Start.{
  Opt, help, version, print_dump, unknown, logfile, mode, Settings, goes_on, fresh, back, options,
  log_of, logname_size, default_logfile,
}

-- The argument of the last -o.
unfoldable pub last_logfile : List Opt → Option (List ℕ)
last_logfile [] = none
last_logfile (logfile name ∷ rest) = elim (last_logfile rest) [
  | none ↦ some name
  | some later ↦ some later
]
last_logfile (_ ∷ rest) = last_logfile rest

-- Does some -m ask for the background?
unfoldable pub asks_back : List Opt → Bool
asks_back [] = false
asks_back (mode name ∷ rest) = eq_nocase (length back) name back || asks_back rest
asks_back (_ ∷ rest) = asks_back rest

abbrev IsTerminated : Settings → Type 0
IsTerminated s = get_elem? s.logname (logname_size - 1) ≡ some 0

-- What the options leave of the name, by the last -o.
abbrev Named : Settings → Settings → Option (List ℕ) → Type 0
Named s s' none = (s'.logname ≡ s.logname) × (s'.logmark ≡ s.logmark)
Named s s' (some name) =
    (text s'.logname ≡ text (take (logname_size - 1) name)) × (s'.logmark ≡ true)

goes_on-injective : (s s' : Settings) → goes_on s ≡ goes_on s' → s ≡ s'
goes_on-injective s s' h = cc

options-Named :
    (opts : List Opt) (s s' : Settings)
    → IsTerminated s
    → options opts s ≡ goes_on s'
    → Named s s' (last_logfile opts)
unfolding options last_logfile
options-Named [] s s' t h = let e = goes_on-injective s s' h in rw (← e) (refl, refl)
options-Named (help ∷ rest) s s' t h = cc
options-Named (version ∷ rest) s s' t h = cc
options-Named (print_dump ∷ rest) s s' t h = cc
options-Named (unknown ∷ rest) s s' t h = options-Named rest s s' t h
options-Named (mode m ∷ rest) s s' t h =
    let s1 : Settings = record s {
      backmark = if eq_nocase (length back) m back then true else s.backmark;
    } in
    let later : Named s1 s' (last_logfile rest) = options-Named rest s1 s' t h in
    elim (Option-cases (last_logfile rest)) [
      | inl e ↦ rw e (rw e at later)
      | inr (n, e) ↦ rw e (rw e at later)
    ]
options-Named (logfile name ∷ rest) s s' t h =
    let s1 : Settings = record s {
      logmark = true;
      logname = strncpy s.logname name (logname_size - 1);
    } in
    let t1 = get_elem?-strncpy s.logname name 255 255 (omega arith) ∙ t in
    let later = options-Named rest s1 s' t1 h in
    elim (Option-cases (last_logfile rest)) [
      | inl e ↦
          let last : Named s1 s' none = rw e at later in
          rw e (ap text last.0 ∙ text-strncpy s.logname name 255 t, last.1)
      | inr (n, e) ↦ let last : Named s1 s' (some n) = rw e at later in rw e last
    ]

options-asks_back :
    (opts : List Opt) (s s' : Settings)
    → options opts s ≡ goes_on s'
    → s'.backmark ≡ (asks_back opts || s.backmark)
unfolding options asks_back
options-asks_back [] s s' h = let e = goes_on-injective s s' h in rw (← e)
options-asks_back (help ∷ rest) s s' h = cc
options-asks_back (version ∷ rest) s s' h = cc
options-asks_back (print_dump ∷ rest) s s' h = cc
options-asks_back (unknown ∷ rest) s s' h = options-asks_back rest s s' h
options-asks_back (logfile name ∷ rest) s s' h = options-asks_back rest _ s' h
options-asks_back (mode m ∷ rest) s s' h =
    let asks = if eq_nocase (length back) m back then true else s.backmark in
    ground (arith, options-asks_back rest (record s { backmark = asks }) s' h)

-- Where the loop over the options does not return from `main`, the log file's name is the argument
-- of the last -o, as far as the 255 bytes before the terminator reach, and the default name if
-- there is none; and `main` goes into the background exactly if some argument of -m begins with
-- "back".
pub options-log_of :
    (opts : List Opt) (s : Settings)
    → options opts fresh ≡ goes_on s
    → (text (log_of s) ≡ elim (last_logfile opts) as (λ _. List ℕ) [
      | none ↦ default_logfile
      | some name ↦ text (take (logname_size - 1) name)
    ])
      × (s.backmark ≡ asks_back opts)
unfolding fresh log_of text
options-log_of opts s h =
    let asked : s.backmark ≡ (asks_back opts || false) = options-asks_back opts fresh s h in
    let named : Named fresh s (last_logfile opts) = options-Named opts fresh s refl h in
    elim (Option-cases (last_logfile opts)) [
      | inl e ↦
          let last : Named fresh s none = rw e at named in
          rw (e, last.1, last.0)
            (
              text-strncpy_zeros 256 (length default_logfile) default_logfile (omega arith),
              ground arith,
            )
      | inr (name, e) ↦
          let last : Named fresh s (some name) = rw e at named in
          rw (e, last.1) (last.0, ground arith)
    ]
