-- ===== src/Conf/Watch.antt =====
-- conf/watch.go: which events of the watched files start a reload, and what a reload makes of the
-- configuration. Times are in nanoseconds; `none` is the zero time.
use v2bx_outbound.Base.{
  ℕ, ◌+◌, ◌≤◌, ◌≡◌, refl, arith, Bool, true, false, Option, none, some, List, [], ◌∷◌, ltb,
  Bool-cases, inl, inr, subst, sym, if◌then◌else◌,
}

pub record Event : Type 0 where
  pub is_chmod : Bool
  pub now : ℕ

abbrev pub ten_seconds : ℕ
ten_seconds = 10_000_000_000

-- `pre.Add(10 * time.Second).After(time.Now())`
abbrev pub is_early : Option ℕ → ℕ → Bool
is_early none now = false
is_early (some pre) now = ltb now (pre + ten_seconds)

-- A round of the loop on an event: the new `pre`, and whether a reload is started.
unfoldable pub on_event : Event → Option ℕ → Option ℕ × Bool
on_event e pre =
    if e.is_chmod
    then (pre, false)
    else if is_early pre e.now
    then (pre, false)
    else (some e.now, true)

-- The times at which reloads are started.
unfoldable pub started_at : List Event → Option ℕ → List ℕ
started_at [] pre = []
started_at (e ∷ events) pre =
    let rest = started_at events (on_event e pre).0 in
    if (on_event e pre).1 then e.now ∷ rest else rest

-- The goroutine: LoadFromPath on the defaults of New, whose result is true for a nil error; `reload` is
-- called either way.
unfoldable pub reload_config : {C W : Type 0} → C → (C → C × Bool) → (C → W → W) → W → C × W
reload_config defaults load_from_path reload w =
    let loaded = load_from_path defaults in (loaded.0, reload loaded.0 w)

-- Ten seconds at least lie between a time and each later one.
abbrev pub IsSpaced : Option ℕ → List ℕ → Type 0
IsSpaced pre [] = Unit
IsSpaced none (t ∷ times) = IsSpaced (some t) times
IsSpaced (some pre) (t ∷ times) = (pre + ten_seconds ≤ t) × IsSpaced (some t) times

IsSpaced-first :
    (pre : Option ℕ) (t : ℕ) (times : List ℕ)
    → is_early pre t ≡ false
    → IsSpaced (some t) times
    → IsSpaced pre (t ∷ times)
IsSpaced-first none t times late h = h
IsSpaced-first (some pre) t times late h = (ground (arith, late), h)

-- An event that starts none, and one that starts a reload.
started_at-skips :
    (e : Event) (events : List Event) (pre : Option ℕ)
    → on_event e pre ≡ (pre, false)
    → started_at (e ∷ events) pre ≡ started_at events pre
unfolding started_at
started_at-skips e events pre h = rw h refl

started_at-starts :
    (e : Event) (events : List Event) (pre : Option ℕ)
    → on_event e pre ≡ (some e.now, true)
    → started_at (e ∷ events) pre ≡ e.now ∷ started_at events (some e.now)
unfolding started_at
started_at-starts e events pre h = rw h refl

-- Reloads are started ten seconds apart at least, whatever the events and their times.
pub started_at-IsSpaced :
    (events : List Event) (pre : Option ℕ) → IsSpaced pre (started_at events pre)
unfolding on_event started_at
started_at-IsSpaced [] none = tt
started_at-IsSpaced [] (some pre) = tt
started_at-IsSpaced (e ∷ events) pre = elim (Bool-cases e.is_chmod) [
  | inl c ↦
      let skips = started_at-skips e events pre (ground (arith, c)) in
      subst (IsSpaced pre) (sym skips) (started_at-IsSpaced events pre)
  | inr c ↦ elim (Bool-cases (is_early pre e.now)) [
    | inl early ↦
        let skips = started_at-skips e events pre (ground (arith, c, early)) in
        subst (IsSpaced pre) (sym skips) (started_at-IsSpaced events pre)
    | inr late ↦
        let starts = started_at-starts e events pre (ground (arith, c, late)) in
        subst (IsSpaced pre) (sym starts) (
          IsSpaced-first pre e.now (started_at events (some e.now)) late
            (started_at-IsSpaced events (some e.now)))
  ]
]
