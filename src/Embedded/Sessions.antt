-- ===== src/Embedded/Sessions.antt =====
-- Who gets a session of the embedded server of cmd/agent/main.go, and what its timer closes.
use mathlib.Core.Path.{subst}
use mathlib.Core.Option.{none-ne-some, some-injective}
use multi_ssh.Base.{
  ◌≡◌, inl, inr, refl, sym, ap, ◌∙◌, true, List, [], ◌∷◌, Option, none, some, Text, contains,
  text_eq, nat_eq, Bool-cases, Option-cases, arith,
}
use multi_ssh.Names.{PublicKey}
use multi_ssh.Keys.{Formats, load_authorized_keys}
use multi_ssh.Keys.Authorized.{stands_in, accepted, load_authorized_keys_iff}
use multi_ssh.Embedded.{
  Progress, handshaking, ended, returned, serving, Tunnel, Event, offers, breaks, fires, goes_on,
  hangs_up, fresh_tunnel, serve_embedded, public_key_callback, time_out, after_handshake,
  at_progress, step, run,
}

-- What a state of the function says: the key that logged in is allowed, the timer alone has set
-- `hs_done` before the function did, and only it has closed a channel that is in use.
abbrev pub Said : Tunnel → Progress → Type 0
Said t handshaking = (t.hs_done ≡ t.timed_out) × (t.closed ≡ t.timed_out)
Said t ended = t.closed ≡ true
Said t (returned none) = t.closed ≡ t.timed_out
Said t (returned (some key)) = (contains t.allowed key ≡ true) × (t.closed ≡ t.timed_out)
Said t (serving key) =
    (contains t.allowed key ≡ true) × (t.hs_done ≡ true) × (t.closed ≡ t.timed_out)

time_out-Said : (t : Tunnel) (p : Progress) → Said t p → Said (time_out t) p
unfolding time_out
time_out-Said t handshaking h = ground arith
time_out-Said t ended h = ground arith
time_out-Said t (returned none) h = ground arith
time_out-Said t (returned (some key)) h = ground arith
time_out-Said t (serving key) h = ground arith

time_out-progress : (t : Tunnel) → (time_out t).progress ≡ t.progress
unfolding time_out
time_out-progress t = ground arith

time_out-allowed : (t : Tunnel) → (time_out t).allowed ≡ t.allowed
unfolding time_out
time_out-allowed t = ground arith

abbrev Holds : Tunnel → Type 0
Holds t = Said t t.progress

stays : (t : Tunnel) (p : Progress) → t.progress ≡ p → Said t p → Holds t
stays t p at h = subst (Said t) (sym at) h

at_progress-Holds :
    (e : Event) (p : Progress) (t : Tunnel) → t.progress ≡ p → Said t p → Holds (at_progress e p t)
unfolding at_progress after_handshake
at_progress-Holds fires p t at h =
    subst (Said (time_out t)) (sym (time_out-progress t ∙ at)) (time_out-Said t p h)
at_progress-Holds (offers key) handshaking t at h = elim (Bool-cases (public_key_callback t key)) [
  | inl yes' ↦ rw yes' (yes', h.1)
  | inr no' ↦ rw no' (stays t handshaking at h)
]
at_progress-Holds (offers key) ended t at h = stays t ended at h
at_progress-Holds (offers key) (returned r) t at h = stays t (returned r) at h
at_progress-Holds (offers key) (serving k) t at h = stays t (serving k) at h
at_progress-Holds breaks handshaking t at h = h.1
at_progress-Holds breaks ended t at h = stays t ended at h
at_progress-Holds breaks (returned r) t at h = stays t (returned r) at h
at_progress-Holds breaks (serving k) t at h = stays t (serving k) at h
at_progress-Holds goes_on handshaking t at h = stays t handshaking at h
at_progress-Holds goes_on ended t at h = stays t ended at h
at_progress-Holds goes_on (returned none) t at h = refl
at_progress-Holds goes_on (returned (some k)) t at h = (h.0, refl, h.1)
at_progress-Holds goes_on (serving k) t at h = stays t (serving k) at h
at_progress-Holds hangs_up handshaking t at h = stays t handshaking at h
at_progress-Holds hangs_up ended t at h = stays t ended at h
at_progress-Holds hangs_up (returned r) t at h = stays t (returned r) at h
at_progress-Holds hangs_up (serving k) t at h = refl

run-Holds : (es : List Event) (t : Tunnel) → Holds t → Holds (run es t)
unfolding run step
run-Holds [] t h = h
run-Holds (e ∷ es) t h = run-Holds es (step e t) (at_progress-Holds e t.progress t refl h)

at_progress-allowed :
    (e : Event) (p : Progress) (t : Tunnel) → (at_progress e p t).allowed ≡ t.allowed
unfolding at_progress after_handshake
at_progress-allowed fires p t = time_out-allowed t
at_progress-allowed (offers key) handshaking t = ground arith
at_progress-allowed (offers key) ended t = refl
at_progress-allowed (offers key) (returned r) t = refl
at_progress-allowed (offers key) (serving k) t = refl
at_progress-allowed breaks handshaking t = refl
at_progress-allowed breaks ended t = refl
at_progress-allowed breaks (returned r) t = refl
at_progress-allowed breaks (serving k) t = refl
at_progress-allowed goes_on handshaking t = refl
at_progress-allowed goes_on ended t = refl
at_progress-allowed goes_on (returned none) t = refl
at_progress-allowed goes_on (returned (some k)) t = refl
at_progress-allowed goes_on (serving k) t = refl
at_progress-allowed hangs_up handshaking t = refl
at_progress-allowed hangs_up ended t = refl
at_progress-allowed hangs_up (returned r) t = refl
at_progress-allowed hangs_up (serving k) t = refl

run-allowed : (es : List Event) (t : Tunnel) → (run es t).allowed ≡ t.allowed
unfolding run step
run-allowed [] t = refl
run-allowed (e ∷ es) t = run-allowed es (step e t) ∙ at_progress-allowed e t.progress t

abbrev pub ClosedLate : PublicKey → Tunnel → Type 0
ClosedLate key t =
    let late = run (offers key ∷ fires ∷ goes_on ∷ []) t in
    (late.progress ≡ serving key) × (late.closed ≡ true)

closed_late :
    (set : List PublicKey) (key : PublicKey)
    → contains set key ≡ true
    → ClosedLate key (fresh_tunnel set)
unfolding run step at_progress time_out after_handshake
closed_late set key known = rw known (refl, refl)

module _ {Signer : Type 0} (f : Formats Signer) (file : Option Text) where
  abbrev Starts : Tunnel → Type 0
  Starts t = Holds t × ((k : PublicKey) → contains t.allowed k ≡ stands_in f file k)

  started : (t : Tunnel) → serve_embedded f file ≡ some t → Starts t
  unfolding serve_embedded
  started t e = elim (Option-cases (load_authorized_keys f file)) [
    | inl no' ↦ absurd (none-ne-some t (rw no' at e))
    | inr (set, yes') ↦
        subst Starts (some-injective (fresh_tunnel set) t (rw yes' at e)) (
          (refl, refl),
          λ k. ap (λ o. accepted f o k) (sym yes') ∙ load_authorized_keys_iff f file k,
        )
  ]

  -- A session is served only for a key that a line of the agent's file says, as the file was when
  -- the tunnel was opened; from then on the timer changes nothing, and the channel is open unless
  -- the timer ran before.
  pub session_lem :
      (es : List Event) (t : Tunnel) (key : PublicKey)
      → serve_embedded f file ≡ some t
      → (run es t).progress ≡ serving key
      → (stands_in f file key ≡ true)
        × (step fires (run es t) ≡ run es t)
        × ((run es t).closed ≡ (run es t).timed_out)
  unfolding step at_progress time_out
  session_lem es t key e at =
      let (h, file_keys) = started t e in
      let (known, done, open') = subst (Said (run es t)) at (run-Holds es t h) in
      (
        sym (file_keys key) ∙ ap (λ ks. contains ks key) (sym (run-allowed es t)) ∙ known,
        rw done refl,
        open',
      )

  -- A tunnel on which no handshake has returned is closed once the timer runs, whatever keys were
  -- offered on it: it cannot stay silent and open.
  pub silent_closed :
      (es : List Event) (t : Tunnel)
      → serve_embedded f file ≡ some t
      → (run es t).progress ≡ handshaking
      → (step fires (run es t)).closed ≡ true
  unfolding step at_progress time_out
  silent_closed es t e at =
      let h = subst (Said (run es t)) at (run-Holds es t (started t e).0) in ground arith

  -- The timer can close a session whose handshake has succeeded: it runs behind the return of the
  -- handshake and before `hs_done` is set.
  pub good_session_closed :
      (t : Tunnel) (key : PublicKey)
      → serve_embedded f file ≡ some t
      → stands_in f file key ≡ true
      → ClosedLate key t
  unfolding serve_embedded
  good_session_closed t key e there = elim (Option-cases (load_authorized_keys f file)) [
    | inl no' ↦ absurd (none-ne-some t (rw no' at e))
    | inr (set, yes') ↦
        let same = some-injective (fresh_tunnel set) t (rw yes' at e) in
        let known =
          ap (λ (o : Option (List PublicKey)). accepted f o key) (sym yes')
          ∙ load_authorized_keys_iff f file key
          ∙ there in
        subst (ClosedLate key) same (closed_late set key known)
  ]
