-- ===== src/Gateway/Trace.antt =====
-- What a list of actions comes to: its answers to the client, the connections it opens and closes,
-- the tunnels it counts, the slots it gives back and the traffic it records.
use proxydeck.Prelude.{ℕ, ◌+◌, ◌≡◌, refl, sym, ◌⊎◌, List, [], ◌∷◌, ◌++◌, append_assoc, arith}
use proxydeck.Prelude.Int.{pos}
use proxydeck.Strings.{Text}
use proxydeck.Gateway.{
  Action, Request, TrafficRecord, count, http_error, challenge, respond, write_client, open_peer,
  close_peer, send_origin, send_proxy, record_traffic, release_slot, active_tunnels_inc,
  active_tunnels_dec,
}

abbrev pub answers : Action → ℕ
answers (http_error n e) = 1
answers (challenge n e) = 1
answers (respond n) = 1
answers (write_client t) = 1
answers a = 0

abbrev pub opens : Action → ℕ
opens open_peer = 1
opens a = 0

abbrev pub closes : Action → ℕ
closes close_peer = 1
closes a = 0

abbrev pub tunnel_starts : Action → ℕ
tunnel_starts (count active_tunnels_inc) = 1
tunnel_starts a = 0

abbrev pub tunnel_ends : Action → ℕ
tunnel_ends (count active_tunnels_dec) = 1
tunnel_ends a = 0

abbrev pub total : (Action → ℕ) → List Action → ℕ
total f [] = 0
total f (a ∷ acts) = f a + total f acts

abbrev pub slots : Action → List Text
slots (release_slot uid) = uid ∷ []
slots a = []

abbrev pub entries : Action → List TrafficRecord
entries (record_traffic e) = e ∷ []
entries a = []

abbrev pub forwarded : Action → List Request
forwarded (send_origin q) = q ∷ []
forwarded (send_proxy q) = q ∷ []
forwarded a = []

module _ {A : Type 0} where
  abbrev pub collect : (Action → List A) → List Action → List A
  collect f [] = []
  collect f (a ∷ acts) = f a ++ collect f acts

  pub collect-append :
      (f : Action → List A) (acts bs : List Action)
      → collect f (acts ++ bs) ≡ collect f acts ++ collect f bs
  collect-append f [] bs = refl
  collect-append f (a ∷ acts) bs =
      rw (collect-append f acts bs) (sym (append_assoc (f a) (collect f acts) (collect f bs)))

-- One answer, and as many connections closed as opened and tunnels ended as started.
abbrev pub Balanced : List Action → Type 0
Balanced acts =
    (total answers acts ≡ 1)
    × (total opens acts ≡ total closes acts)
    × (total tunnel_starts acts ≡ total tunnel_ends acts)

-- No traffic, or one record of it, of one request of the user.
abbrev pub Accounted : Text → List TrafficRecord → Type 0
Accounted uid es =
    (es ≡ []) ⊎ ((e : TrafficRecord) × (es ≡ e ∷ []) × (e.uid ≡ uid) × (e.requests ≡ pos 1))

pub total-append :
    (f : Action → ℕ) (acts bs : List Action) → total f (acts ++ bs) ≡ total f acts + total f bs
total-append f [] bs = omega arith
total-append f (a ∷ acts) bs = omega (arith, total-append f acts bs)
