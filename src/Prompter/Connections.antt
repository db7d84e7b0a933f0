-- ===== src/Prompter/Connections.antt =====
-- The prompter's connections over any sequence of events, and what a peer that fails the check gets.
use libre_darwin.Base.{
  ℕ, suc, ◌<◌, ◌≡◌, refl, Option, none, some, List, [], ◌∷◌, ◌++◌, Bool, true, false, arith, All,
  All-append, ◌==◌, Bool-cases, inl, inr, if◌then◌else◌,
}
use libre_darwin.Wire.{Cbor, PrompterWire}
use libre_darwin.Protocol.Decode.Requests.{parse_prompter_request}
use libre_darwin.Prompter.{
  Providers, Effect, send_secret, Server, has, erase, unauthorized_reply, close_connection,
  accept_one, on_frames, on_read_ready, serve,
}

abbrev pub Distinct : List ℕ → Type 0
Distinct [] = Unit {0}
Distinct (i ∷ ids) = (has i ids ≡ false) × Distinct ids

-- Connection ids are distinct, and the next one is new.
pub record IsValid (s : Server) : Type 0 where
  pub fresh : All (λ i. i < s.next_conn_id) s.connections
  pub distinct : Distinct s.connections

All-lt-suc : (n : ℕ) (ids : List ℕ) → All (λ i. i < n) ids → All (λ i. i < suc n) ids
All-lt-suc n [] h = tt
All-lt-suc n (i ∷ ids) h = (omega arith, All-lt-suc n ids h.1)

All-erase : (P : ℕ → Type 0) (id : ℕ) (ids : List ℕ) → All P ids → All P (erase id ids)
unfolding erase
All-erase P id [] h = tt
All-erase P id (i ∷ ids) h = elim (Bool-cases (i == id)) [
  | inl e ↦ rw e h.1
  | inr e ↦ rw e (h.0, All-erase P id ids h.1)
]

has-erase_ne : (j id : ℕ) (ids : List ℕ) → has j ids ≡ false → has j (erase id ids) ≡ false
unfolding has erase
has-erase_ne j id [] h = refl
has-erase_ne j id (i ∷ ids) h = ground (arith, has-erase_ne j id ids)

has-erase_self : (id : ℕ) (ids : List ℕ) → Distinct ids → has id (erase id ids) ≡ false
unfolding has erase
has-erase_self id [] h = refl
has-erase_self id (i ∷ ids) h = ground (arith, h.0, has-erase_self id ids h.1)

Distinct-erase : (id : ℕ) (ids : List ℕ) → Distinct ids → Distinct (erase id ids)
unfolding erase
Distinct-erase id [] h = tt
Distinct-erase id (i ∷ ids) h = elim (Bool-cases (i == id)) [
  | inl e ↦ rw e h.1
  | inr e ↦ rw e (has-erase_ne i id ids h.0, Distinct-erase id ids h.1)
]

has_above : (n : ℕ) (ids : List ℕ) → All (λ i. i < n) ids → has n ids ≡ false
unfolding has
has_above n [] h = refl
has_above n (i ∷ ids) h = ground (arith, h.0, has_above n ids h.1)

close_connection-IsValid : (s : Server) (id : ℕ) → IsValid s → IsValid (close_connection s id)
unfolding close_connection
close_connection-IsValid s id v = record {
  fresh = All-erase _ id s.connections v.fresh;
  distinct = Distinct-erase id s.connections v.distinct;
}

has-of_empty : (id : ℕ) (ids : List ℕ) → ids ≡ [] → has id ids ≡ false
unfolding has
has-of_empty id ids h = rw h refl

-- What the event loop delivers: a peer connects, or a connection becomes readable.
pub data Event (Credentials Body : Type 0) : Type 0 where
  connects : Option Credentials → Event Credentials Body
  readable : ℕ → List Body → Bool → Event Credentials Body

module _ {Credentials : Type 0} (w : PrompterWire) (c : Cbor) (peer_auth : Credentials → Bool)
    (p : Providers w.Kind w.Status) where
  pub step : Server → Event Credentials c.Body → Server × List (Effect w.Kind w.Status)
  step s (connects creds) = accept_one w peer_auth creds s
  step s (readable id frames ok) = on_read_ready w c p s id frames ok

  pub run : Server → List (Event Credentials c.Body) → Server × List (Effect w.Kind w.Status)
  unfolding step
  run s [] = (s, [])
  run s (e ∷ es) = let (s', now) = step s e in let (s'', later) = run s' es in (s'', now ++ later)

  on_frames-IsValid :
      (s : Server) (id : ℕ) (frames : List c.Body) (ok : Bool)
      → IsValid s
      → IsValid (on_frames w c p s id frames ok).0
  unfolding on_frames
  on_frames-IsValid s id [] true v = v
  on_frames-IsValid s id [] false v = close_connection-IsValid s id v
  on_frames-IsValid s id (body ∷ frames) ok v = close_connection-IsValid s id v

  -- Every event keeps the connection ids distinct and the next one new.
  pub step-IsValid : (s : Server) (e : Event Credentials c.Body) → IsValid s → IsValid (step s e).0
  unfolding step accept_one on_read_ready on_frames
  step-IsValid s (connects none) v = v
  step-IsValid s (connects (some creds)) v = elim (Bool-cases (peer_auth creds)) [
    | inl e ↦ rw e (record {
      fresh = (omega arith, All-lt-suc s.next_conn_id s.connections v.fresh);
      distinct = (has_above s.next_conn_id s.connections v.fresh, v.distinct);
    })
    | inr e ↦ rw e v
  ]
  step-IsValid s (readable id frames ok) v = elim (Bool-cases (has id s.connections)) [
    | inl e ↦ rw e (on_frames-IsValid s id frames ok v)
    | inr e ↦ rw e v
  ]

  -- A connection serves one request: a read that delivers frames serves the first of them and nothing
  -- else, and whatever arrives on the connection after it changes nothing and has no effect.
  pub on_read_ready_once :
      (s : Server) (id : ℕ) (body : c.Body) (frames more : List c.Body) (ok ok' : Bool)
      → IsValid s
      → let (s', es) = on_read_ready w c p s id (body ∷ frames) ok in
        (es ≡ (if has id s.connections then serve w p (parse_prompter_request w c body) else []))
        × (on_read_ready w c p s' id more ok' ≡ (s', []))
  unfolding on_read_ready on_frames close_connection
  on_read_ready_once s id body frames more ok ok' v = elim (Bool-cases (has id s.connections)) [
    | inl e ↦ rw e (refl, ground (arith, has-erase_self id s.connections v.distinct))
    | inr e ↦ rw e (refl, rw e refl)
  ]

  abbrev pub Refused : Effect w.Kind w.Status → Type 0
  Refused e = e ≡ send_secret (unauthorized_reply w)

  step-Refused :
      ((creds : Credentials) → peer_auth creds ≡ false)
      → (s : Server) (e : Event Credentials c.Body) → s.connections ≡ []
      → ((step s e).0.connections ≡ []) × All Refused (step s e).1
  unfolding step accept_one on_read_ready has
  step-Refused rejects s (connects none) h = (h, (refl, tt))
  step-Refused rejects s (connects (some creds)) h = rw (rejects creds) (h, (refl, tt))
  step-Refused rejects s (readable id frames ok) h = rw (has-of_empty id s.connections h) (h, tt)

  -- While no peer passes the check, no history of events raises, dismisses or sweeps a window, or sends
  -- anything but the refusal, and no connection is ever kept.
  pub run-Refused :
      ((creds : Credentials) → peer_auth creds ≡ false)
      → (s : Server) (es : List (Event Credentials c.Body)) → s.connections ≡ []
      → ((run s es).0.connections ≡ []) × All Refused (run s es).1
  unfolding run
  run-Refused rejects s [] h = (h, tt)
  run-Refused rejects s (e ∷ es) h =
      let (h', now) = step-Refused rejects s e h in
      let (h'', later) = run-Refused rejects (step s e).0 es h' in
      (h'', All-append Refused (step s e).1 (run (step s e).0 es).1 now later)

  run-IsValid :
      (s : Server) (es : List (Event Credentials c.Body)) → IsValid s → IsValid (run s es).0
  unfolding run
  run-IsValid s [] v = v
  run-IsValid s (e ∷ es) v = run-IsValid (step s e).0 es (step-IsValid s e v)
