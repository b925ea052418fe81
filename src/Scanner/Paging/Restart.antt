-- ===== src/Scanner/Paging/Restart.antt =====
-- A list that the server pages is listed whole, once, even if a continue token expires on the way.
use fleetsweeper.Common.{
  ℕ, zero, suc, ◌+◌, ◌*◌, ◌≤◌, ◌<◌, ◌≡◌, Bool, true, false, not, ◌&&◌, List, [], ◌∷◌, ◌++◌, some,
  String, if◌then◌else◌, eqb, ◌==◌, string_eq, eq_iff, length, arith, refl, append_assoc,
  append-nil, ap, ◌∙◌, sym, subst, Bool-cases, inl, inr,
}
use fleetsweeper.Scanner.Paging.{
  ListOptions, Answer, page, failed, listed, with_limit, next_page, list_loop, list_all,
}

abbrev pub all_items {ℓ} : {T : Type ℓ} → List (String × List T) → List T
all_items [] = []
all_items (p ∷ ps) = p.1 ++ all_items ps

-- The request that the program makes for a page: the first one as it was given, a later one with the page's
-- token, the same limit and selectors, and no resource version.
unfoldable pub request_for : ListOptions → String → ListOptions
unfolding next_page
request_for opts token = if token == "" then opts else next_page opts token

module _ {T : Type 0} (list : ℕ → ListOptions → Answer T) (opts : ListOptions) (expiry : ℕ) where
  -- The i-th request is not the one that finds its token expired.
  abbrev pub Served : ℕ → String → Type 0
  Served i token = (eqb i expiry && not (token == "")) ≡ false

  -- The server pages a list: it answers each request for a page with the page and the next token, but for the
  -- one request at which the token, if there is one, has expired.
  abbrev pub Serves : List (String × List T) → Type 0
  Serves [] = ⊥
  Serves (p ∷ []) = (i : ℕ) → Served i p.0 → list i (request_for opts p.0) ≡ page p.1 ""
  Serves (p ∷ p' ∷ more) =
      ((p'.0 == "") ≡ false)
      × ((p'.0 == p.0) ≡ false)
      × ((i : ℕ) → Served i p.0 → list i (request_for opts p.0) ≡ page p.1 p'.0)
      × Serves (p' ∷ more)

  abbrev pub Expires : Type 0
  Expires = (o : ListOptions) → (o.continue == "") ≡ false → list expiry o ≡ failed true

  request_for-continue :
      (token : String) → opts.continue ≡ "" → (request_for opts token).continue ≡ token
  unfolding request_for next_page
  request_for-continue token e = ground (arith, e, eq_iff token "")

  -- One page further.
  list_loop-page :
      (fuel i : ℕ) (restarted : Bool) (out : List T) (token : String) (items : List T)
      (next : String)
      → opts.continue ≡ ""
      → (next == "") ≡ false
      → (next == token) ≡ false
      → list i (request_for opts token) ≡ page items next
      → list_loop list opts (suc fuel) i (request_for opts token) restarted out
        ≡ list_loop list opts fuel (suc i) (request_for opts next) restarted (out ++ items)
  unfolding list_loop request_for
  list_loop-page fuel i restarted out token items next e some_next new answer =
      rw (list_loop, answer, some_next, request_for-continue token e, new) refl

  list_loop-last :
      (fuel i : ℕ) (restarted : Bool) (out : List T) (token : String) (items : List T)
      → list i (request_for opts token) ≡ page items ""
      → list_loop list opts (suc fuel) i (request_for opts token) restarted out
        ≡ some (listed (out ++ items))
  unfolding list_loop
  list_loop-last fuel i restarted out token items answer = rw (list_loop, answer) refl

  past : (i : ℕ) (token : String) → expiry < i → Served i token
  past i token h = ground (arith, h)

  -- After the expiry the pages come one after another.
  list_loop-onward :
      (p : String × List T) (ps : List (String × List T)) (fuel i : ℕ) (restarted : Bool)
      (out : List T)
      → opts.continue ≡ ""
      → Serves (p ∷ ps)
      → expiry < i
      → length ps < fuel
      → list_loop list opts fuel i (request_for opts p.0) restarted out
        ≡ some (listed (out ++ all_items (p ∷ ps)))
  list_loop-onward p [] zero i restarted out e s after le = absurd (omega (arith, le))
  list_loop-onward p [] (suc fuel) i restarted out e s after le =
      rw (append-nil p.1) (list_loop-last fuel i restarted out p.0 p.1 (s i (past i p.0 after)))
  list_loop-onward p (p' ∷ ps) zero i restarted out e s after le = absurd (omega (arith, le))
  list_loop-onward p (p' ∷ ps) (suc fuel) i restarted out e (some_next, new, answers, rest) after
        le =
      list_loop-page fuel i restarted out p.0 p.1 p'.0 e some_next new
        (answers i (past i p.0 after))
      ∙ list_loop-onward p' ps fuel (suc i) restarted (out ++ p.1) e rest (omega (arith, after))
          (omega (arith, le))
      ∙ ap (λ xs. some (listed xs)) (append_assoc out p.1 (all_items (p' ∷ ps)))

  list_loop-expired :
      (fuel : ℕ) (out : List T) (token : String)
      → opts.continue ≡ ""
      → Expires
      → (token == "") ≡ false
      → list_loop list opts (suc fuel) expiry (request_for opts token) false out
        ≡ list_loop list opts fuel (suc expiry) opts true []
  unfolding list_loop
  list_loop-expired fuel out token e expires some_token =
      let asked = request_for-continue token e in
      let answer =
        expires (request_for opts token) (subst (λ t. (t == "") ≡ false) (sym asked) some_token) in
      rw (list_loop, answer, asked, some_token) refl

  module _ (first : List T) (rest : List (String × List T)) (e : opts.continue ≡ "")
      (expires : Expires) (whole : Serves (("", first) ∷ rest)) where
    -- The expired token starts the list again.
    list_loop-again :
        (fuel i : ℕ) (out : List T) (token : String)
        → (eqb i expiry && not (token == "")) ≡ true
        → length rest < fuel
        → list_loop list opts (suc fuel) i (request_for opts token) false out
          ≡ some (listed (first ++ all_items rest))
    unfolding request_for
    list_loop-again fuel i out token hit le =
        let here : i ≡ expiry = ground (arith, hit) in
        let some_token : (token == "") ≡ false = ground (arith, hit) in
        subst
          (λ j.
            list_loop list opts (suc fuel) j (request_for opts token) false out
            ≡ some (listed (first ++ all_items rest)))
          (sym here)
          (list_loop-expired fuel out token e expires some_token
            ∙ list_loop-onward ("", first) rest fuel (suc expiry) true [] e whole (omega arith) le)

    -- Before the expiry, with the pages already listed in `out`.
    list_loop-restart :
        (p : String × List T) (ps : List (String × List T)) (fuel i : ℕ) (out : List T)
        → Serves (p ∷ ps)
        → out ++ all_items (p ∷ ps) ≡ first ++ all_items rest
        → length ps + length rest + 1 < fuel
        → list_loop list opts fuel i (request_for opts p.0) false out
          ≡ some (listed (first ++ all_items rest))
    list_loop-restart p ps zero i out s inv le = absurd (omega (arith, le))
    list_loop-restart p [] (suc fuel) i out s inv le =
        elim (Bool-cases (eqb i expiry && not (p.0 == ""))) [
          | inl hit ↦ list_loop-again fuel i out p.0 hit (omega (arith, le))
          | inr miss ↦
              list_loop-last fuel i false out p.0 p.1 (s i miss)
              ∙ ap (λ xs. some (listed xs)) (ap (λ ys. out ++ ys) (sym (append-nil p.1)) ∙ inv)
        ]
    list_loop-restart p (p' ∷ ps) (suc fuel) i out (some_next, new, answers, more) inv le =
        elim (Bool-cases (eqb i expiry && not (p.0 == ""))) [
          | inl hit ↦ list_loop-again fuel i out p.0 hit (omega (arith, le))
          | inr miss ↦
              list_loop-page fuel i false out p.0 p.1 p'.0 e some_next new (answers i miss)
              ∙ list_loop-restart p' ps fuel (suc i) (out ++ p.1) more
                  (append_assoc out p.1 (all_items (p' ∷ ps)) ∙ inv) (omega (arith, le))
        ]

-- A server that pages a list gets the whole list out of the program, each page once and in order, within twice
-- as many requests as there are pages, whichever request finds its continue token expired, and if none does.
pub list_all-Serves :
    {T : Type 0} (list : ℕ → ListOptions → Answer T) (opts : ListOptions) (expiry : ℕ)
    (first : List T) (rest : List (String × List T)) (fuel : ℕ)
    → opts.continue ≡ ""
    → Expires list (with_limit opts) expiry
    → Serves list (with_limit opts) expiry (("", first) ∷ rest)
    → 2 * length (("", first) ∷ rest) ≤ fuel
    → list_all list opts fuel ≡ some (listed (first ++ all_items rest))
unfolding list_all request_for with_limit
list_all-Serves list opts expiry first rest fuel e expires serves le =
    let o = with_limit opts in
    let fresh : o.continue ≡ "" = ground (arith, e) in
    list_loop-restart list o expiry first rest fresh expires serves ("", first) rest fuel 0 []
      serves refl (omega (arith, le))
