-- ===== src/RateLimiter/Window.antt =====
-- A window lets through as many hits as its limit says (backend/app/services/rate_limiter.py).
use book_point.Base.{
  ℕ, ◌+◌, ◌-◌, ◌*◌, ◌<◌, ◌≡◌, refl, sym, ◌∙◌, ap, min, false, ◌&&◌, none, some, inl, inr, List, [],
  ◌∷◌, All, leb, arith, Bool-cases, if◌then◌else◌,
}
use book_point.Base.Text.{Text, eq_text, eq_text_refl, eq_text→eq}
use book_point.RateLimiter.{Entries, MemoryEntry, cleanup, get_entry, hit, next_entry, set_entry}

get_entry-set_same :
    (key : Text) (e : MemoryEntry) (entries : Entries)
    → get_entry (set_entry key e entries) key ≡ some e
get_entry-set_same key e [] = rw (eq_text_refl key) refl
get_entry-set_same key e ((k, old) ∷ entries) = elim (Bool-cases (eq_text k key)) [
  | inl y ↦ rw y (rw y refl)
  | inr n ↦ rw n (rw n (get_entry-set_same key e entries))
]

get_entry-set_other :
    (key other : Text) (e : MemoryEntry) (entries : Entries)
    → eq_text other key ≡ false
    → get_entry (set_entry other e entries) key ≡ get_entry entries key
get_entry-set_other key other e [] h = rw h refl
get_entry-set_other key other e ((k, old) ∷ entries) h = elim (Bool-cases (eq_text k other)) [
  | inl y ↦
      let same : k ≡ other = eq_text→eq k other y in
      let h' : eq_text k key ≡ false = ap (λ x. eq_text x key) same ∙ h in rw y (rw h' refl)
  | inr n ↦ elim (Bool-cases (eq_text k key)) [
    | inl y ↦ rw n (rw y refl)
    | inr m ↦ rw n (rw m (get_entry-set_other key other e entries h))
  ]
]

-- An entry that is found and still runs is not cleaned up.
get_entry-cleanup :
    (now : ℕ) (key : Text) (e : MemoryEntry) (entries : Entries)
    → now < e.expires_at
    → get_entry entries key ≡ some e
    → get_entry (cleanup now entries) key ≡ some e
get_entry-cleanup now key e [] l h = cc
get_entry-cleanup now key e ((k, x) ∷ entries) l h = elim (Bool-cases (eq_text k key)) [
  | inl y ↦
      let h' : some x ≡ some e = rw y at h in
      let x_is : x ≡ e = cc in
      let live : leb x.expires_at now ≡ false = rw x_is (ground arith) in rw live (rw y h')
  | inr n ↦
      let ih = get_entry-cleanup now key e entries l (rw n at h) in
      elim (Bool-cases (leb x.expires_at now)) [ inl z ↦ rw z ih | inr z ↦ rw z (rw n ih) ]
]

-- How many hits of a key a sequence of hits, each with its time and its key, lets through.
unfoldable pub count_allowed : Text → ℕ → ℕ → List (ℕ × Text) → Entries → ℕ
unfolding hit
count_allowed key limit window_seconds [] entries = 0
count_allowed key limit window_seconds ((now, k) ∷ hits) entries =
    let (h, entries') = hit k limit window_seconds now entries in
    (if eq_text k key && h.0 then 1 else 0) + count_allowed key limit window_seconds hits entries'

unfoldable pub count_hits : Text → List (ℕ × Text) → ℕ
count_hits key [] = 0
count_hits key ((now, k) ∷ hits) = (if eq_text k key then 1 else 0) + count_hits key hits

hit-same :
    (key : Text) (limit window_seconds now : ℕ) (e : MemoryEntry) (entries : Entries)
    → now < e.expires_at
    → get_entry entries key ≡ some e
    → ((hit key limit window_seconds now entries).0.0 ≡ leb (e.count + 1) limit)
      × (get_entry (hit key limit window_seconds now entries).1 key
          ≡ some (record e { count = e.count + 1 }))
unfolding hit
hit-same key limit window_seconds now e entries l h =
    let live = get_entry-cleanup now key e entries l h in
    let running : leb e.expires_at now ≡ false = ground arith in
    let next : next_entry now window_seconds (get_entry (cleanup now entries) key)
        ≡ record e { count = e.count + 1 } =
      ap (next_entry now window_seconds) live ∙ rw running refl in
    (
      ap (λ (x : MemoryEntry). leb x.count limit) next,
      get_entry-set_same key (next_entry now window_seconds (get_entry (cleanup now entries) key))
            (cleanup now entries)
          ∙ ap some next,
    )

hit-other :
    (key k : Text) (limit window_seconds now : ℕ) (e : MemoryEntry) (entries : Entries)
    → eq_text k key ≡ false
    → now < e.expires_at
    → get_entry entries key ≡ some e
    → get_entry (hit k limit window_seconds now entries).1 key ≡ some e
unfolding hit
hit-other key k limit window_seconds now e entries other l h =
    get_entry-set_other key k (next_entry now window_seconds (get_entry (cleanup now entries) k))
      (cleanup now entries) other
    ∙ get_entry-cleanup now key e entries l h

count_allowed-running :
    (key : Text) (limit window_seconds : ℕ) (hits : List (ℕ × Text)) (e : MemoryEntry)
    (entries : Entries)
    → All (λ h. h.0 < e.expires_at) hits
    → get_entry entries key ≡ some e
    → count_allowed key limit window_seconds hits entries
      ≡ min (count_hits key hits) (limit - e.count)
unfolding count_allowed count_hits
count_allowed-running key limit window_seconds [] e entries within h = omega arith
count_allowed-running key limit window_seconds ((now, k) ∷ hits) e entries within h =
    elim (Bool-cases (eq_text k key)) [
      | inr n ↦
          let ih =
            count_allowed-running key limit window_seconds hits e
              (hit k limit window_seconds now entries).1 within.1
              (hit-other key k limit window_seconds now e entries n within.0 h) in
          rw n (omega (arith, ih))
      | inl y ↦
          let k_is : k ≡ key = eq_text→eq k key y in
          let (allowed, counted) =
            hit-same k limit window_seconds now e entries within.0
              (ap (get_entry entries) k_is ∙ h) in
          let ih =
            count_allowed-running key limit window_seconds hits (record e { count = e.count + 1 })
              (hit k limit window_seconds now entries).1 within.1
              (sym (ap (get_entry (hit k limit window_seconds now entries).1) k_is) ∙ counted) in
          rw (y, allowed)
            (one_more (count_hits key hits) e.count
              (count_allowed key limit window_seconds hits
                (hit k limit window_seconds now entries).1)
              ih)
    ]
  where
    one_more :
        (n c rest : ℕ)
        → rest ≡ min n (limit - (c + 1))
        → (if leb (c + 1) limit then 1 else 0) + rest ≡ min (1 + n) (limit - c)
    one_more n c rest q = ground arith

-- If a key has no entry that still runs when a hit of it comes, the window is longer than 0
-- seconds, and the hits that follow come before that window ends, then of this hit and those that
-- follow, mixed with hits of other keys in any way, exactly as many of the key are allowed as there
-- are, or the limit if that is less. This is the memory store.
pub count_allowed-window :
    (key : Text) (limit window_seconds now : ℕ) (hits : List (ℕ × Text)) (entries : Entries)
    → 0 < window_seconds
    → get_entry (cleanup now entries) key ≡ none
    → All (λ h. h.0 < now + 1_000_000 * window_seconds) hits
    → count_allowed key limit window_seconds ((now, key) ∷ hits) entries
      ≡ min (count_hits key ((now, key) ∷ hits)) limit
unfolding count_allowed count_hits hit
count_allowed-window key limit window_seconds now hits entries positive fresh within =
    let first : MemoryEntry = record { count = 1; expires_at = now + 1_000_000 * window_seconds } in
    let opened : next_entry now window_seconds (get_entry (cleanup now entries) key) ≡ first =
      ap (next_entry now window_seconds) fresh in
    let stored =
      get_entry-set_same key (next_entry now window_seconds (get_entry (cleanup now entries) key))
        (cleanup now entries)
      ∙ ap some opened in
    let rest =
      count_allowed-running key limit window_seconds hits first
        (hit key limit window_seconds now entries).1 within stored in
    rw (eq_text_refl key, ap (λ (e : MemoryEntry). leb e.count limit) opened)
      (first_hit (count_hits key hits)
        (count_allowed key limit window_seconds hits (hit key limit window_seconds now entries).1)
        rest)
  where
    first_hit :
        (n rest : ℕ)
        → rest ≡ min n (limit - 1)
        → (if leb 1 limit then 1 else 0) + rest ≡ min (1 + n) limit
    first_hit n rest q = ground arith
