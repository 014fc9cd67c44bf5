-- ===== src/Clients/Answers.antt =====
-- src/CMClient.cpp: the messages that a session is sent carry consecutive numbers.
use electronic_exchange_simu.Prelude.{
  ℕ, ◌==◌, true, false, some, List, [], ◌∷◌, ◌++◌, ◌≡◌, refl, sym, ap, ◌∙◌, All, All-append, ==_iff,
  add64, Option-cases, inl, inr, subst,
}
use mathlib.Core.List.{append_assoc}
use electronic_exchange_simu.Clients.CmClient.{
  ResponseData, ClientResponse, Sessions, send_buffer, increment_outbound_seq_num, send_numbered,
  send_all_numbered,
}

abbrev pub Sent : Type 0
Sent = List (ℕ × ClientResponse)

-- Newest first, the messages carry the numbers after lo up to hi.
abbrev pub Runs : ℕ → Sent → ℕ → Type 0
Runs lo [] hi = lo ≡ hi
Runs lo (x ∷ xs) hi = (x.1.msg_seq_num ≡ hi) × ((mid : ℕ) × (hi ≡ add64 mid 1) × Runs lo xs mid)

-- From s to s' the session p alone has been sent messages, at its connection and with the numbers
-- that it counts.
pub record Answers (p : ℕ) (s s' : Sessions) : Type 0 where
  pub news : Sent
  pub sent_more : s'.sent ≡ news ++ s.sent
  pub numbered : Runs (s.objects p).outbound_seq_num news (s'.objects p).outbound_seq_num
  pub addressed : All (λ x. (s.objects p).conn ≡ some x.0) news
  pub conn_kept : (s'.objects p).conn ≡ (s.objects p).conn
  pub id_kept : (s'.objects p).client_id ≡ (s.objects p).client_id
  pub inbound_kept : (s'.objects p).inbound_seq_num ≡ (s.objects p).inbound_seq_num
  pub ready_kept : (s'.objects p).ready ≡ (s.objects p).ready
  pub others_kept : (q : ℕ) → (p == q) ≡ false → s'.objects q ≡ s.objects q

Runs-append :
    (lo mid hi : ℕ) (xs ys : Sent) → Runs lo ys mid → Runs mid xs hi → Runs lo (xs ++ ys) hi
Runs-append lo mid hi [] ys h k = subst (λ n. Runs lo ys n) k h
Runs-append lo mid hi (x ∷ xs) ys h k =
    (k.0, (k.1.0, k.1.1, Runs-append lo mid k.1.0 xs ys h k.1.2))

pub Answers-refl : (p : ℕ) (s : Sessions) → Answers p s s
Answers-refl p s = record {
  news = [];
  sent_more = refl;
  numbered = refl;
  addressed = tt;
  conn_kept = refl;
  id_kept = refl;
  inbound_kept = refl;
  ready_kept = refl;
  others_kept = λ q h. refl;
}

pub Answers-trans : (p : ℕ) (s t u : Sessions) → Answers p s t → Answers p t u → Answers p s u
Answers-trans p s t u h k = record {
  news = k.news ++ h.news;
  sent_more =
      k.sent_more ∙ (ap (λ l. k.news ++ l) h.sent_more ∙ sym (append_assoc k.news h.news s.sent));
  numbered = Runs-append _ _ _ k.news h.news h.numbered k.numbered;
  addressed =
      All-append _ k.news h.news
        (subst (λ c. All (λ (x : ℕ × ClientResponse). c ≡ some x.0) k.news) h.conn_kept k.addressed)
        h.addressed;
  conn_kept = k.conn_kept ∙ h.conn_kept;
  id_kept = k.id_kept ∙ h.id_kept;
  inbound_kept = k.inbound_kept ∙ h.inbound_kept;
  ready_kept = k.ready_kept ∙ h.ready_kept;
  others_kept = λ q e. k.others_kept q e ∙ h.others_kept q e;
}

-- A message with the next number.
abbrev pub next_message : Sessions → ℕ → (ℕ → ClientResponse) → Sessions
next_message s p f = let (n, s1) = increment_outbound_seq_num s p in send_buffer s1 p (f n)

pub Answers-next_message :
    (s : Sessions) (p w : ℕ) (f : ℕ → ClientResponse)
    → (s.objects p).conn ≡ some w
    → ((n : ℕ) → (f n).msg_seq_num ≡ n)
    → Answers p s (next_message s p f)
unfolding increment_outbound_seq_num send_buffer
Answers-next_message s p w f c numbers = record {
  news = (w, f (add64 (s.objects p).outbound_seq_num 1)) ∷ [];
  sent_more = rw (self, c) refl;
  numbered = rw self (numbers _, (_, refl, refl));
  addressed = (c, tt);
  conn_kept = rw self refl;
  id_kept = rw self refl;
  inbound_kept = rw self refl;
  ready_kept = rw self refl;
  others_kept = λ q e. rw e refl;
}
  where
    self : (p == p) ≡ true
    self = (==_iff p p).1 refl

pub Answers-send_numbered :
    (s : Sessions) (p : ℕ) (content : ResponseData) → Answers p s (send_numbered s p content)
unfolding send_numbered
Answers-send_numbered s p content = elim (Option-cases (s.objects p).conn) [
  | inl e ↦ rw (e, send_numbered) (Answers-refl p s)
  | inr (w, e) ↦
      rw (e, send_numbered)
        (Answers-next_message s p w (λ n. record { content = content; msg_seq_num = n }) e
          (λ n. refl))
]

pub Answers-send_all_numbered :
    (s : Sessions) (p : ℕ) (cs : List ResponseData) → Answers p s (send_all_numbered s p cs)
unfolding send_all_numbered
Answers-send_all_numbered s p [] = Answers-refl p s
Answers-send_all_numbered s p (c ∷ cs) =
    Answers-trans p s (send_numbered s p c) (send_all_numbered (send_numbered s p c) p cs)
      (Answers-send_numbered s p c) (Answers-send_all_numbered (send_numbered s p c) p cs)
