-- ===== src/Frontend/Order.antt =====
-- The frontend sends the requests of its trace in order
-- (src/frontend/impl/memory_trace/aim_trace.cpp, `tick`).
use mathlib.Core.Path.{subst}
use aim_simulator.Base.{
  ◌≡◌, refl, sym, ◌∙◌, Bool, true, false, List, [], ◌∷◌, ◌++◌, Result, ok, >>=-ok, if◌then◌else◌,
  Bool-cases, inl, inr, arith,
}
use aim_simulator.Request.{Request}
use aim_simulator.Frontend.Trace.{Reader, Trace, get_host_request, fetch, tick}

-- The requests that are still to be read: the abstract trace.
pub data Todo : Reader → List Request → Type 0 where
  ended : {d : Reader} → d.reached_eoc ≡ true → Todo d []
  reads :
      {d d' : Reader} (r : Request) {rs : List Request}
      → d.reached_eoc ≡ false
      → get_host_request d ≡ ok (d', r)
      → Todo d' rs
      → Todo d (r ∷ rs)

-- The request at hand, if there is one.
abbrev pub at_hand : Bool → Request → List Request
at_hand true r = r ∷ []
at_hand false r = []

-- What a frontend has not sent yet.
pub record Unsent (t : Trace) (rs : List Request) : Type 0 where
  pub rest : List Request
  pub ahead : rs ≡ at_hand t.has_request t.request ++ rest
  pub behind : Todo t.reader rest

-- Fetching moves the next request to the hand, and changes nothing of what is to be sent.
fetch-step :
    (t t' : Trace) (rest : List Request)
    → t.has_request ≡ false
    → Todo t.reader rest
    → fetch t ≡ ok t'
    → Unsent t' rest
unfolding fetch
fetch-step t t' rest idle (ended e) h =
    let h1 = rw (idle, e) at h in
    let last : t ≡ t' = ground arith in
    rw (← last) (record { rest = []; ahead = rw idle refl; behind = ended e })
fetch-step t t' rest idle (reads {d'} r {rs} e got more) h =
    let h1 = rw (got, idle, e) at h in
    let last : record t { reader = d'; request = r; has_request = true } ≡ t' = ground arith in
    rw (← last) (record { rest = rs; ahead = refl; behind = more })

fetch-Unsent : (t t' : Trace) (rs : List Request) → fetch t ≡ ok t' → Unsent t rs → Unsent t' rs
unfolding fetch
fetch-Unsent t t' rs h u = elim (Bool-cases t.has_request) [
  | inl held ↦ let h1 = rw held at h in let last : t ≡ t' = ground arith in rw (← last) u
  | inr idle ↦
      let all : rs ≡ u.rest = u.ahead ∙ rw idle refl in
      rw all (fetch-step t t' u.rest idle u.behind h)
]

-- What sending leaves, by whether the request was taken.
sent-Unsent :
    (t : Trace) (b : Bool) (rs : List Request)
    → t.has_request ≡ true
    → Unsent t rs
    → (left : List Request) × (rs ≡ (if b then t.request ∷ [] else []) ++ left)
      × Unsent (if b then record t { has_request = false } else t) left
sent-Unsent t true rs held u =
    (u.rest, u.ahead ∙ rw held refl, record { rest = u.rest; ahead = refl; behind = u.behind })
sent-Unsent t false rs held u = (rs, refl, u)

module _ {S : Type 0} (send : S → Request → Result (S × Bool)) where
  -- Whatever the memory system takes: what it took in a tick and what is still to be sent make up
  -- what was to be sent. No request is lost, sent twice or overtaken.
  pub tick-Unsent :
      (s s' : S) (t t' : Trace) (rs taken : List Request)
      → Unsent t rs
      → tick send s t ≡ ok (s', t', taken)
      → (left : List Request) × (rs ≡ taken ++ left) × Unsent t' left
  unfolding tick
  tick-Unsent s s' t t' rs taken u h =
      let (t1, fetched, h1) = >>=-ok (fetch t) _ h in
      let v = fetch-Unsent t t1 rs fetched u in
      elim (Bool-cases t1.has_request) [
        | inr idle ↦
            let h2 = rw idle at h1 in
            let same : t1 ≡ t' = ground arith in
            let none_taken : [] ≡ taken = ground arith in
            (rs, rw (← none_taken) refl, rw (← same) v)
        | inl held ↦
            let (x, _, h2) = >>=-ok (send s t1.request) _ (rw held at h1) in
            let (left, whole, w) = sent-Unsent t1 x.1 rs held v in
            let took : (if x.1 then t1.request ∷ [] else []) ≡ taken = ground arith in
            let last : (if x.1 then record t1 { has_request = false } else t1) ≡ t' =
              ground arith in
            (left, rw (← took) whole, subst (λ e. Unsent e left) last w)
      ]

  next_head :
      (t : Trace) (r : Request) (rs : List Request)
      → t.has_request ≡ false
      → Todo t.reader (r ∷ rs)
      → (t' : Trace) × (fetch t ≡ ok t')
        × (t'.has_request ≡ true)
        × (t'.request ≡ r)
        × Todo t'.reader rs
  unfolding fetch
  next_head t q rs idle (reads {d'} r e got more) = (
    record t { reader = d'; request = r; has_request = true },
    rw (got, idle, e) refl,
    refl,
    refl,
    more,
  )

  -- The head of what is to be sent, at hand.
  ready_head :
      (t : Trace) (r : Request) (rs : List Request)
      → Unsent t (r ∷ rs)
      → (t' : Trace) × (fetch t ≡ ok t')
        × (t'.has_request ≡ true)
        × (t'.request ≡ r)
        × Todo t'.reader rs
  unfolding fetch
  ready_head t r rs u = elim (Bool-cases t.has_request) [
    | inl held ↦
        let whole : r ∷ rs ≡ t.request ∷ u.rest = u.ahead ∙ rw held refl in
        let here : t.request ≡ r = ground arith in
        let behind : u.rest ≡ rs = ground arith in
        (t, rw held refl, held, here, subst (Todo t.reader) behind u.behind)
    | inr idle ↦
        next_head t r rs idle (subst (Todo t.reader) (sym (u.ahead ∙ rw idle refl)) u.behind)
  ]

  -- While there is a request to send and the memory system takes it, a tick does not fail, and sends
  -- that request.
  pub tick-progress :
      (s s' : S) (t : Trace) (r : Request) (rs : List Request)
      → Unsent t (r ∷ rs)
      → send s r ≡ ok (s', true)
      → (t' : Trace) × (tick send s t ≡ ok (s', t', r ∷ [])) × Unsent t' rs
  unfolding tick
  tick-progress s s' t r rs u accepts =
      let (t1, fetched, held, here, behind) = ready_head t r rs u in
      (
        record t1 { has_request = false },
        rw (fetched, held, here, accepts) refl,
        record { rest = rs; ahead = refl; behind = behind },
      )
