-- ===== src/Server/AuditTrail/Captured.antt =====
-- What the audit keeps of a response.
use fleetsweeper.Common.{
  ℕ, zero, suc, ◌-◌, ◌≤◌, ◌<◌, ◌≡◌, refl, sym, ap, ◌∙◌, true, false, List, [], ◌∷◌, ◌++◌, none,
  some, arith, Bool-cases, Option-cases, inl, inr, if◌then◌else◌, ltb, eqb, length, min, append-nil,
  append_assoc,
}
use fleetsweeper.Store.Listing.{take}
use fleetsweeper.Server.Auth.Bearer.{Text}
use fleetsweeper.Server.AuditTrail.{
  audit_body_cap, AuditWriter, WriterCall, write_header, write, write_body, capture, index_quote,
  excerpt,
}

-- The last status that the handler wrote, or another.
abbrev pub last_status : ℕ → List WriterCall → ℕ
last_status n [] = n
last_status n (write_header code ∷ more) = last_status code more
last_status n (write p ∷ more) = last_status n more

-- The whole body that it wrote.
abbrev pub written : List WriterCall → Text
written [] = []
written (write_header code ∷ more) = written more
written (write p ∷ more) = p ++ written more

length-take : (n : ℕ) (t : Text) → length (take n t) ≡ min n (length t)
length-take zero t = ground arith
length-take (suc n) [] = ground arith
length-take (suc n) (c ∷ cs) = ground (arith, length-take n cs)

-- What is added of a body that comes after another.
take-append : (n : ℕ) (s t : Text) → take n (s ++ t) ≡ take n s ++ take (n - length s) t
take-append zero s t = let e : 0 - length s ≡ 0 = omega arith in rw e refl
take-append (suc n) [] t = let e : suc n - 0 ≡ suc n = omega arith in rw e refl
take-append (suc n) (c ∷ cs) t =
    let e : suc n - suc (length cs) ≡ n - length cs = omega arith in
    rw e (ap (λ x. c ∷ x) (take-append n cs t))

take-min : (n : ℕ) (t : Text) → take (min n (length t)) t ≡ take n t
take-min zero t = let e : min 0 (length t) ≡ 0 = omega arith in rw e refl
take-min (suc n) [] = let e : min (suc n) 0 ≡ 0 = omega arith in rw e refl
take-min (suc n) (c ∷ cs) =
    let e : min (suc n) (suc (length cs)) ≡ suc (min n (length cs)) = omega arith in
    rw e (ap (λ x. c ∷ x) (take-min n cs))

take_all : (n : ℕ) (t : Text) → length t ≤ n → take n t ≡ t
take_all zero [] h = refl
take_all zero (c ∷ cs) h = absurd (omega (arith, h))
take_all (suc n) [] h = refl
take_all (suc n) (c ∷ cs) h = ap (λ x. c ∷ x) (take_all n cs (omega (arith, h)))

below : (a b : ℕ) → ltb a b ≡ true → a < b
below a b h = ground (arith, h)

not_below : (a b : ℕ) → ltb a b ≡ false → b ≤ a
not_below a b h = ground (arith, h)

-- A write adds to the kept bytes what of it fits.
write_body_lem :
    (p whole : Text) (w : AuditWriter)
    → w.body ≡ take audit_body_cap whole
    → write_body p w ≡ record w { body = take audit_body_cap (whole ++ p) }
unfolding write_body
write_body_lem p whole w h =
    let kept : length w.body ≡ min audit_body_cap (length whole) =
      ap length h ∙ length-take audit_body_cap whole in
    elim (Bool-cases (ltb (length w.body) audit_body_cap)) [
      | inl room ↦
          let short : length whole ≤ audit_body_cap =
            omega (arith, kept, below (length w.body) audit_body_cap room) in
          let same : w.body ≡ whole = h ∙ take_all audit_body_cap whole short in
          rw
            (
              room,
              take-min (audit_body_cap - length w.body) p,
              take-append audit_body_cap whole p,
              sym h,
            )
            (ap (λ x. record w { body = w.body ++ take (audit_body_cap - length x) p }) same)
      | inr full ↦
          let none_left : audit_body_cap - length whole ≡ 0 =
            omega (arith, kept, not_below (length w.body) audit_body_cap full) in
          rw (full, take-append audit_body_cap whole p, none_left, sym h, append-nil w.body) refl
    ]

capture_from :
    (calls : List WriterCall) (n : ℕ) (whole : Text)
    → capture calls (record { status = n; body = take audit_body_cap whole })
      ≡ record { status = last_status n calls; body = take audit_body_cap (whole ++ written calls) }
unfolding capture
capture_from [] n whole = rw (append-nil whole) refl
capture_from (write_header code ∷ more) n whole = capture_from more code whole
capture_from (write p ∷ more) n whole =
    rw
      (
        write_body_lem p whole (record { status = n; body = take audit_body_cap whole }) refl,
        sym (append_assoc whole p (written more)),
      )
      (capture_from more n (whole ++ p))

-- The audit keeps the last status that the handler wrote, 200 if it wrote none, and the first 512 bytes of the
-- body, in however many writes it came.
pub capture_lem :
    (calls : List WriterCall)
    → capture calls (record { status = 200; body = [] })
      ≡ record { status = last_status 200 calls; body = take audit_body_cap (written calls) }
capture_lem calls = capture_from calls 200 []

-- The characters before the first quote.
abbrev pub before_quote : Text → Text
before_quote [] = []
before_quote (c ∷ cs) = let rest = before_quote cs in if eqb c b'"' then [] else c ∷ rest

no_quote : (t : Text) → index_quote t ≡ none → before_quote t ≡ t
unfolding index_quote
no_quote [] h = refl
no_quote (c ∷ cs) h = elim (Bool-cases (eqb c b'"')) [
  | inl e ↦ let never : some 0 ≡ none = rw e at h in cc
  | inr e ↦ elim (Option-cases (index_quote cs)) [
    | inl n ↦ rw e (ap (λ x. c ∷ x) (no_quote cs n))
    | inr (i, f) ↦ let never : some (suc i) ≡ none = rw (e, f) at h in cc
  ]
]

take-before_quote :
    (n i : ℕ) (t : Text) → index_quote t ≡ some i → take n (before_quote t) ≡ take (min n i) t
unfolding index_quote
take-before_quote zero i t h = let e : min 0 i ≡ 0 = omega arith in rw e refl
take-before_quote (suc n) i [] h = cc
take-before_quote (suc n) i (c ∷ cs) h = elim (Bool-cases (eqb c b'"')) [
  | inl e ↦
      let first : some 0 ≡ some i = rw e at h in
      let at_zero : i ≡ 0 = cc in
      let low : min (suc n) 0 ≡ 0 = omega arith in rw (e, at_zero, low) refl
  | inr e ↦ elim (Option-cases (index_quote cs)) [
    | inl none_found ↦ let never : none ≡ some i = rw (e, none_found) at h in cc
    | inr (j, f) ↦
        let next : some (suc j) ≡ some i = rw (e, f) at h in
        let at_next : i ≡ suc j = cc in
        let step : min (suc n) (suc j) ≡ suc (min n j) = omega arith in
        rw (e, at_next, step) (ap (λ x. c ∷ x) (take-before_quote n j cs f))
  ]
]

pub excerpt_lem : (t : Text) → excerpt t ≡ take 200 (before_quote t)
unfolding excerpt
excerpt_lem t = elim (Option-cases (index_quote t)) [
  | inl e ↦ elim (Bool-cases (ltb 200 (length t))) [
    | inl long ↦ rw (excerpt, e, long, no_quote t e) refl
    | inr short ↦
        rw (excerpt, e, short, no_quote t e) (sym (take_all 200 t (not_below 200 (length t) short)))
  ]
  | inr (i, e) ↦ elim (Bool-cases (ltb 200 i)) [
    | inl far ↦
        let low : min 200 i ≡ 200 = omega (arith, below 200 i far) in
        rw (excerpt, e, far, take-before_quote 200 i t e, low) refl
    | inr near ↦
        let low : min 200 i ≡ i = omega (arith, not_below 200 i near) in
        rw (excerpt, e, near, take-before_quote 200 i t e, low) refl
  ]
]
