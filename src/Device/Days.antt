-- ===== src/Device/Days.antt =====
-- The strip of the last thirty days.
use dtsys.Prelude.{
  if-true-eq-false, ℕ, ◌+◌, ◌≡◌, refl, ap, ◌∙◌, subst, Bool, true, false, inl, inr, List, [], ◌∷◌,
  arith, ◌&&◌, if◌then◌else◌, if_elim, map, All, Bool-cases,
}
use dtsys.Prelude.Text.{Text, text_eq, text_eq→path}
use dtsys.Prelude.Sort.{IsOrdered}
use dtsys.Device.{
  UptimeEvent, Day, has_day, add_downtime, secs_of, add_events, segment_of, build_segments,
}

abbrev pub day_of : (Text → ℕ) → Text → Day
day_of f key = record { key = key; downtime = f key }

-- The downtime of a day: the outages that ended on it, whole.
unfoldable pub total_down : Text → List UptimeEvent → ℕ
total_down key [] = 0
total_down key (e ∷ events) =
    let rest = total_down key events in
    if e.is_online && text_eq key e.day then secs_of e.duration_secs + rest else rest

abbrev pub AreDistinct : List Text → Type 0
AreDistinct keys = IsOrdered (λ k l. text_eq k l ≡ false) keys

abbrev more : Text → ℕ → (Text → ℕ) → Text → ℕ
more key n f k = if text_eq k key then f k + n else f k

map_ext :
    {A : Type 0} (f g : Text → A) (keys : List Text)
    → ((k : Text) → f k ≡ g k)
    → map f keys ≡ map g keys
map_ext f g [] h = refl
map_ext f g (k ∷ keys) h = rw (h k, map_ext f g keys h) refl

text_eq_sym : (s t : Text) → text_eq s t ≡ text_eq t s
text_eq_sym [] [] = refl
text_eq_sym [] (d ∷ t) = refl
text_eq_sym (c ∷ s) [] = refl
text_eq_sym (c ∷ s) (d ∷ t) = rw (text_eq_sym s t) (ground arith)

-- A key that differs from all of some keys is none of their days.
has_day-false :
    (f : Text → ℕ) (k : Text) (keys : List Text)
    → All (λ l. text_eq k l ≡ false) keys
    → has_day k (map (day_of f) keys) ≡ false
has_day-false f k [] h = refl
has_day-false f k (l ∷ keys) h = rw (text_eq_sym l k, h.0) (has_day-false f k keys h.1)

not_first : (b c : Bool) → b ≡ true → (if b then true else c) ≡ false → ⊥
not_first b c e h = ground arith

unchanged :
    (f : Text → ℕ) (key : Text) (n : ℕ) (keys : List Text)
    → has_day key (map (day_of f) keys) ≡ false
    → map (day_of f) keys ≡ map (day_of (more key n f)) keys
unchanged f key n [] h = refl
unchanged f key n (k ∷ keys) h = elim (Bool-cases (text_eq k key)) [
  | inl e ↦ absurd (not_first _ _ e h)
  | inr e ↦ rw e (ap (λ r. day_of f k ∷ r) (unchanged f key n keys (if-true-eq-false _ _ h)))
]

add_downtime_lem :
    (f : Text → ℕ) (key : Text) (n : ℕ) (keys : List Text)
    → AreDistinct keys
    → add_downtime key n (map (day_of f) keys) ≡ map (day_of (more key n f)) keys
unfolding add_downtime
add_downtime_lem f key n [] h = refl
add_downtime_lem f key n (k ∷ keys) h = elim (Bool-cases (text_eq k key)) [
  | inl e ↦
      let none_left : has_day key (map (day_of f) keys) ≡ false =
        subst (λ l. has_day l (map (day_of f) keys) ≡ false) (text_eq→path k key e)
          (has_day-false f k keys h.0) in
      rw (none_left, e) (ap (λ r. day_of (λ l. f l + n) k ∷ r) (unchanged f key n keys none_left))
  | inr e ↦ rw e (
      if_elim (λ x. x ≡ day_of f k ∷ map (day_of (more key n f)) keys)
        (has_day key (map (day_of f) keys))
        (λ t. ap (λ r. day_of f k ∷ r) (add_downtime_lem f key n keys h.1))
        (λ t. ap (λ r. day_of f k ∷ r) (add_downtime_lem f key n keys h.1)))
]

-- The downtimes after one event.
abbrev after : UptimeEvent → (Text → ℕ) → Text → ℕ
after e f k = if e.is_online && text_eq k e.day then f k + secs_of e.duration_secs else f k

after_lem :
    (b : Bool) (key : Text) (n : ℕ) (f : Text → ℕ) (keys : List Text)
    → AreDistinct keys
    → (if b then add_downtime key n (map (day_of f) keys) else map (day_of f) keys)
      ≡ map (day_of (λ k. if b && text_eq k key then f k + n else f k)) keys
after_lem true key n f keys h = add_downtime_lem f key n keys h
after_lem false key n f keys h = refl

after_total :
    (b : Bool) (m n rest : ℕ) → (if b then m + n else m) + rest ≡ m + (if b then n + rest else rest)
after_total b m n rest = ground arith

add_events_lem :
    (events : List UptimeEvent) (f : Text → ℕ) (keys : List Text)
    → AreDistinct keys
    → add_events events (map (day_of f) keys) ≡ map (day_of (λ k. f k + total_down k events)) keys
unfolding add_events total_down
add_events_lem [] f keys h =
    map_ext _ _ keys (λ k. ap (λ n. record { key = k; downtime = n }) (omega arith))
add_events_lem (e ∷ events) f keys h =
    ap (add_events events) (after_lem e.is_online e.day (secs_of e.duration_secs) f keys h)
    ∙ (add_events_lem events (after e f) keys h
        ∙ map_ext _ _ keys (λ k.
          ap (λ n. record { key = k; downtime = n })
            (after_total (e.is_online && text_eq k e.day) (f k) (secs_of e.duration_secs)
              (total_down k events))))

map-map :
    {A : Type 0} (f : Text → Day) (g : Day → A) (keys : List Text)
    → map g (map f keys) ≡ map (λ k. g (f k)) keys
map-map f g [] = refl
map-map f g (k ∷ keys) = ap (λ r. g (f k) ∷ r) (map-map f g keys)

-- For distinct days, the strip has one segment for each of them in their order, with the colour and the
-- share of its downtime, which is the sum of the outages that ended on the day.
pub build_segments_lem :
    (keys : List Text) (events : List UptimeEvent)
    → AreDistinct keys
    → build_segments keys events ≡ map (λ k. segment_of (day_of (λ l. total_down l events) k)) keys
unfolding build_segments
build_segments_lem keys events h =
    ap (map segment_of) (add_events_lem events (λ k. 0) keys h)
    ∙ (map-map (day_of (λ k. 0 + total_down k events)) segment_of keys
        ∙ map_ext _ _ keys
            (λ k. ap (λ n. segment_of (record { key = k; downtime = n })) (omega arith)))
