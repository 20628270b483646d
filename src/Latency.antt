-- ===== src/Latency.antt =====
-- The lock-free maximum of `LatencyStats::record` of src/strategy/latency_tracker.rs: any number of
-- threads run its load and its compare-and-exchange loop at the same time.
use funding_spread_arbitrage.Prelude.{
  ℕ, ◌≤◌, ◌<◌, ◌≡◌, Bool, not, ◌&&◌, List, [], ◌∷◌, ltb, ◌==◌, max, if◌then◌else◌, arith,
  Bool-cases, inl, inr, subst,
}

-- Where a thread stands in `record`: before the load, in the loop with the value that it last read,
-- or past the loop.
pub data Recorder : Type 0 where
  idle : Recorder
  loading : ℕ → Recorder
  comparing : ℕ → ℕ → Recorder
  finished : ℕ → Recorder

pub record LatencyMax : Type 0 where
  pub max_ns : ℕ
  pub at : ℕ → Recorder

-- A thread enters `record`, or takes its next operation. A weak exchange may fail although the value
-- is the one expected.
pub data Action : Type 0 where
  records : ℕ → ℕ → Action
  runs : ℕ → Bool → Action

abbrev put : (ℕ → Recorder) → ℕ → Recorder → ℕ → Recorder
put at i v j = if i == j then v else at j

-- the condition of the loop
abbrev looped : ℕ → ℕ → Recorder
looped latency current = if ltb current latency then comparing latency current else finished latency

record_at : LatencyMax → ℕ → ℕ → Recorder → LatencyMax
record_at s i latency idle = record s { at = put s.at i (loading latency) }
record_at s i latency (finished _) = record s { at = put s.at i (loading latency) }
record_at s i latency _ = s

run_at : LatencyMax → ℕ → Bool → Recorder → LatencyMax
run_at s i spurious idle = s
run_at s i spurious (loading latency) = record s { at = put s.at i (looped latency s.max_ns) }
run_at s i spurious (comparing latency current) =
    if (s.max_ns == current) && not spurious
    then record { max_ns = latency; at = put s.at i (finished latency) }
    else record s { at = put s.at i (looped latency s.max_ns) }
run_at s i spurious (finished latency) = s

unfoldable pub step : LatencyMax → Action → LatencyMax
unfolding record_at run_at
step s (records i latency) = record_at s i latency (s.at i)
step s (runs i spurious) = run_at s i spurious (s.at i)

unfoldable pub run : LatencyMax → List Action → LatencyMax
run s [] = s
run s (c ∷ cs) = run (step s c) cs

-- The largest latency of the calls in a schedule, and of what was there before.
abbrev pub largest : ℕ → List Action → ℕ
largest m [] = m
largest m (records i latency ∷ cs) = largest (max m latency) cs
largest m (runs i spurious ∷ cs) = largest m cs

-- What holds of a thread while the maximum is `m` and the largest latency brought is `top`.
abbrev Fits : ℕ → ℕ → Recorder → Type 0
Fits m top idle = 0 ≤ m
Fits m top (loading latency) = latency ≤ top
Fits m top (comparing latency current) = (latency ≤ top) × (current < latency)
Fits m top (finished latency) = latency ≤ m

record Inv (top : ℕ) (s : LatencyMax) : Type 0 where
  bounded : s.max_ns ≤ top
  fits : (i : ℕ) → Fits s.max_ns top (s.at i)

Fits-grow : (m n top next : ℕ) (pc : Recorder) → m ≤ n → top ≤ next → Fits m top pc → Fits n next pc
Fits-grow m n top next idle h k w = omega arith
Fits-grow m n top next (loading latency) h k w = omega arith
Fits-grow m n top next (comparing latency current) h k w = ground arith
Fits-grow m n top next (finished latency) h k w = omega arith

put-Fits :
    (m top : ℕ) (at : ℕ → Recorder) (i j : ℕ) (v : Recorder)
    → Fits m top v
    → Fits m top (at j)
    → Fits m top (put at i v j)
put-Fits m top at i j v h k = elim (Bool-cases (i == j)) [ inl e ↦ rw e h | inr e ↦ rw e k ]

looped-Fits : (m top latency : ℕ) → latency ≤ top → Fits m top (looped latency m)
looped-Fits m top latency h = elim (Bool-cases (ltb m latency)) [
  | inl e ↦ rw e (h, ground arith)
  | inr e ↦ rw e (ground arith)
]

moved-Inv :
    (top : ℕ) (s : LatencyMax) (i : ℕ) (v : Recorder)
    → Fits s.max_ns top v
    → Inv top s
    → Inv top (record s { at = put s.at i v })
moved-Inv top s i v h w = record {
  bounded = w.bounded;
  fits = λ j. put-Fits s.max_ns top s.at i j v h (w.fits j);
}

raised-Inv :
    (top : ℕ) (s : LatencyMax) (i latency : ℕ)
    → s.max_ns ≤ latency
    → latency ≤ top
    → Inv top s
    → Inv top (record { max_ns = latency; at = put s.at i (finished latency) })
raised-Inv top s i latency h k w = record {
  bounded = k;
  fits = λ j.
      put-Fits latency top s.at i j (finished latency) (omega arith)
        (Fits-grow s.max_ns latency top top (s.at j) h (omega arith) (w.fits j));
}

run_at-Inv :
    (top : ℕ) (s : LatencyMax) (i : ℕ) (spurious : Bool) (pc : Recorder)
    → Fits s.max_ns top pc
    → Inv top s
    → Inv top (run_at s i spurious pc)
unfolding run_at
run_at-Inv top s i spurious idle h w = w
run_at-Inv top s i spurious (finished latency) h w = w
run_at-Inv top s i spurious (loading latency) h w =
    moved-Inv top s i (looped latency s.max_ns) (looped-Fits s.max_ns top latency h) w
run_at-Inv top s i spurious (comparing latency current) h w =
    elim (Bool-cases ((s.max_ns == current) && not spurious)) [
      | inl e ↦ rw e (raised-Inv top s i latency (ground arith) h.0 w)
      | inr e ↦
          rw e
            (moved-Inv top s i (looped latency s.max_ns) (looped-Fits s.max_ns top latency h.0) w)
    ]

grown-Inv : (top next : ℕ) (s : LatencyMax) → top ≤ next → Inv top s → Inv next s
grown-Inv top next s h w = record {
  bounded = omega (arith, w.bounded);
  fits = λ j. Fits-grow s.max_ns s.max_ns top next (s.at j) (omega arith) h (w.fits j);
}

record_at-Inv :
    (top : ℕ) (s : LatencyMax) (i latency : ℕ) (pc : Recorder)
    → Inv top s
    → Inv (max top latency) (record_at s i latency pc)
unfolding record_at
record_at-Inv top s i latency idle w =
    moved-Inv (max top latency) s i (loading latency) (omega arith)
      (grown-Inv top (max top latency) s (omega arith) w)
record_at-Inv top s i latency (finished _) w =
    moved-Inv (max top latency) s i (loading latency) (omega arith)
      (grown-Inv top (max top latency) s (omega arith) w)
record_at-Inv top s i latency (loading _) w = grown-Inv top (max top latency) s (omega arith) w
record_at-Inv top s i latency (comparing _ _) w = grown-Inv top (max top latency) s (omega arith) w

run-Inv :
    (top : ℕ) (s : LatencyMax) (cs : List Action) → Inv top s → Inv (largest top cs) (run s cs)
unfolding run step
run-Inv top s [] w = w
run-Inv top s (records i latency ∷ cs) w =
    run-Inv (max top latency) (step s (records i latency)) cs
      (record_at-Inv top s i latency (s.at i) w)
run-Inv top s (runs i spurious ∷ cs) w =
    run-Inv top (step s (runs i spurious)) cs (run_at-Inv top s i spurious (s.at i) (w.fits i) w)

abbrev pub start : ℕ → LatencyMax
start m = record { max_ns = m; at = λ _. idle }

-- Whatever the schedule, and however often the exchanges fail, the maximum is at least the latency of
-- every call that is past the loop, and at most the largest latency that was brought or there before.
pub maximum_between :
    (m : ℕ) (cs : List Action) (i latency : ℕ)
    → (run (start m) cs).at i ≡ finished latency
    → (latency ≤ (run (start m) cs).max_ns) × ((run (start m) cs).max_ns ≤ largest m cs)
maximum_between m cs i latency h =
    let first : Inv m (start m) = record { bounded = omega arith; fits = λ j. omega arith } in
    let w = run-Inv m (start m) cs first in
    let here : Fits (run (start m) cs).max_ns (largest m cs) (finished latency) =
      subst (Fits (run (start m) cs).max_ns (largest m cs)) h (w.fits i) in
    (here, w.bounded)
