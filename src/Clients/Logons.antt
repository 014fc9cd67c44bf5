-- ===== src/Clients/Logons.antt =====
-- src/ClientManager.cpp: what a logon and a logout do to the numbers that the next logon must fit.
use electronic_exchange_simu.Prelude.{
  ℕ, Bool, true, false, some, List, [], ◌∷◌, ◌≡◌, refl, ap, ◌∙◌, arith, if◌then◌else◌, ==_iff,
  add64, Bool-cases, inl, inr,
}
use electronic_exchange_simu.Wire.{OrderResponse}
use electronic_exchange_simu.Log.Files.{Disk}
use electronic_exchange_simu.Accounts.ClientDatabase.{
  set_client_i_seq_num, set_client_o_seq_num, increment_and_get_client_o_seq_num,
}
use electronic_exchange_simu.Clients.CmClient.{Sessions, send_buffer, increment_outbound_seq_num}
use electronic_exchange_simu.Clients.Manager.{
  ClientManager, session, expected_msg_seq_num, expected_ack_seq_num, reject_logon, displace,
  take_over, resend, accept_logon, fits_session, get_responses_since, handle_client_logon,
  handle_client_logout,
}

displace-objects :
    (s : Sessions) (p q client_id expected seq : ℕ)
    → (displace s p q client_id expected seq).objects ≡ s.objects
unfolding displace send_buffer
displace-objects s p q client_id expected seq = ground arith

resend-objects :
    (rs : List OrderResponse) (s : Sessions) (p seq : ℕ) → (resend s p seq rs).objects ≡ s.objects
unfolding resend send_buffer
resend-objects [] s p seq = refl
resend-objects (r ∷ rs) s p seq = resend-objects rs _ p (add64 seq 1)

-- The numbers that the logon of a client must fit next, and its session.
pub record Counted (m m' : ClientManager) (client_id : ℕ) (taken : Bool) (p : ℕ) : Type 0 where
  pub registered : m'.clients client_id ≡ (if taken then some p else m.clients client_id)
  pub inbound : expected_msg_seq_num m' client_id ≡ (
      if taken
      then add64 (expected_msg_seq_num m client_id) 1
      else expected_msg_seq_num m client_id)
  pub outbound : expected_ack_seq_num m' client_id ≡ add64 (expected_ack_seq_num m client_id) 1

-- The numbers of a client whose session is registered are those of the session.
pub expected_msg-session :
    (m : ClientManager) (p client_id : ℕ)
    → m.clients client_id ≡ some p
    → expected_msg_seq_num m client_id ≡ add64 (session m p).inbound_seq_num 1
unfolding expected_msg_seq_num
expected_msg-session m p client_id e = ground arith

pub expected_ack-session :
    (m : ClientManager) (p client_id : ℕ)
    → m.clients client_id ≡ some p
    → expected_ack_seq_num m client_id ≡ (session m p).outbound_seq_num
unfolding expected_ack_seq_num
expected_ack-session m p client_id e = ground arith

take_over-number :
    (m : ClientManager) (p client_id : ℕ)
    → (take_over m p client_id).0 ≡ add64 (expected_ack_seq_num m client_id) 1
unfolding take_over expected_ack_seq_num increment_outbound_seq_num
take_over-number m p client_id = ground arith

module _ (m : ClientManager) (p client_id : ℕ) where
  reject_logon-Counted :
      Counted m (reject_logon m p client_id (expected_msg_seq_num m client_id)) client_id false p
  unfolding reject_logon expected_msg_seq_num expected_ack_seq_num increment_outbound_seq_num
      send_buffer increment_and_get_client_o_seq_num
  reject_logon-Counted = record {
    registered = ground arith;
    inbound = ground arith;
    outbound = ground arith;
  }

  module _ (msg_seq_num ack : ℕ) (missed : List OrderResponse) where
    accepted : ClientManager
    accepted = accept_logon m p client_id msg_seq_num ack missed

    accepted-registered : accepted.clients client_id ≡ some p
    unfolding accepted accept_logon
    accepted-registered = rw ((==_iff client_id client_id).1 refl) refl

    accepted-inbound : (session accepted p).inbound_seq_num ≡ msg_seq_num
    unfolding accepted accept_logon send_buffer
    accepted-inbound =
        rw ((==_iff p p).1 refl, resend-objects missed _ p ack) (rw ((==_iff p p).1 refl) refl)

    accepted-outbound :
        (session accepted p).outbound_seq_num ≡ add64 (expected_ack_seq_num m client_id) 1
    unfolding accepted accept_logon send_buffer
    accepted-outbound =
        rw ((==_iff p p).1 refl, resend-objects missed _ p ack)
          (rw ((==_iff p p).1 refl) (take_over-number m p client_id))

    accept_logon-Counted :
        msg_seq_num ≡ expected_msg_seq_num m client_id → Counted m accepted client_id true p
    accept_logon-Counted e = record {
      registered = accepted-registered;
      inbound =
          expected_msg-session accepted p client_id accepted-registered
          ∙ ap (λ n. add64 n 1) (accepted-inbound ∙ e);
      outbound = expected_ack-session accepted p client_id accepted-registered ∙ accepted-outbound;
    }

fits-number :
    (m : ClientManager) (client_id msg_seq_num ack : ℕ)
    → fits_session m client_id msg_seq_num ack ≡ true
    → msg_seq_num ≡ expected_msg_seq_num m client_id
fits-number m client_id msg_seq_num ack e =
    (==_iff msg_seq_num (expected_msg_seq_num m client_id)).0 (ground arith)

module _ (d : Disk OrderResponse) (file_size fuel : ℕ) where
  -- A logon registers the session for its client exactly where its numbers fit, and counts once in
  -- the number that the next logon must have exactly then; accepted or refused, it takes one number
  -- of those that the client is sent.
  pub handle_client_logon-Counted :
      (m : ClientManager) (p client_id ack msg_seq_num : ℕ)
      → Counted m
          (handle_client_logon d file_size fuel m p client_id ack msg_seq_num)
          client_id
          (fits_session m client_id msg_seq_num ack)
          p
  unfolding handle_client_logon accepted
  handle_client_logon-Counted m p client_id ack msg_seq_num =
      elim (Bool-cases (fits_session m client_id msg_seq_num ack)) [
        | inl e ↦ rw e (
            accept_logon-Counted m p client_id msg_seq_num ack
              (get_responses_since m.db d file_size fuel client_id ack)
              (fits-number m client_id msg_seq_num ack e))
        | inr e ↦ rw e (reject_logon-Counted m p client_id)
      ]

-- The end of a session changes no number that the next logon of any client must fit, as they go to
-- the database and come back from it, and leaves the session objects as they are.
pub handle_client_logout-expected :
    (m : ClientManager) (p client_id : ℕ)
    → (expected_msg_seq_num (handle_client_logout m p) client_id ≡ expected_msg_seq_num m client_id)
      × (expected_ack_seq_num (handle_client_logout m p) client_id
          ≡ expected_ack_seq_num m client_id)
      × ((handle_client_logout m p).sessions ≡ m.sessions)
unfolding handle_client_logout set_client_i_seq_num set_client_o_seq_num expected_msg_seq_num
    expected_ack_seq_num
handle_client_logout-expected m p client_id = ground arith
