-- ===== src/Control/AppSessions/Sound.antt =====
-- What the registry of the operator's sessions of apps/control-plane/src/state.rs keeps.
use fanzloud.Base.{
  ℕ, ◌≤◌, ◌<◌, ◌≡◌, ◌≢◌, refl, ◌∙◌, ap, sym, true, List, [], ◌∷◌, length, All, All-map, arith,
}
use fanzloud.Control.AppSessions.{AppSession, AppSessionRegistry, live_count}

-- The sequence numbers grow, and lie above `low`.
abbrev pub Ascending : ℕ → List AppSession → Type 0
Ascending low [] = Unit {0}
Ascending low (s ∷ ss) = (low < s.issuance_seq) × Ascending s.issuance_seq ss

abbrev pub IsFree : List ℕ → AppSession → Type 0
IsFree token s = s.token ≢ token

-- No two sessions share a token.
abbrev pub IsDistinct : List AppSession → Type 0
IsDistinct [] = Unit {0}
IsDistinct (s ∷ ss) = All (IsFree s.token) ss × IsDistinct ss

abbrev pub IsSized : AppSession → Type 0
IsSized s = length s.token ≡ 43

abbrev pub IsIssued : ℕ → AppSession → Type 0
IsIssued seq s = s.issuance_seq ≤ seq

pub record AreSound (seq : ℕ) (sessions : List AppSession) : Type 0 where
  pub sized : All IsSized sessions
  pub ascending : Ascending 0 sessions
  pub issued : All (IsIssued seq) sessions
  pub distinct : IsDistinct sessions
  pub few : live_count sessions ≤ 4

abbrev pub IsSound : AppSessionRegistry → Type 0
IsSound r = AreSound r.issuance_seq r.sessions

-- The first list is the second with some sessions left out and others changed: their token, their
-- number and their expiry stay, and none that is invalidated becomes valid.
pub record IsKept (s t : AppSession) : Type 0 where
  pub same_token : s.token ≡ t.token
  pub same_seq : s.issuance_seq ≡ t.issuance_seq
  pub same_expiry : s.expires_at ≡ t.expires_at
  pub stays : t.invalidated ≡ true → s.invalidated ≡ true

pub data Thins : List AppSession → List AppSession → Type 0 where
  nothing : Thins [] []
  drop : {t : AppSession} {ss ts : List AppSession} → Thins ss ts → Thins ss (t ∷ ts)
  keep :
      {s t : AppSession} {ss ts : List AppSession}
      → IsKept s t
      → Thins ss ts
      → Thins (s ∷ ss) (t ∷ ts)

pub IsKept-refl : (s : AppSession) → IsKept s s
IsKept-refl s = record { same_token = refl; same_seq = refl; same_expiry = refl; stays = λ e. e }

IsKept-trans : {a b c : AppSession} → IsKept a b → IsKept b c → IsKept a c
IsKept-trans h k = record {
  same_token = h.same_token ∙ k.same_token;
  same_seq = h.same_seq ∙ k.same_seq;
  same_expiry = h.same_expiry ∙ k.same_expiry;
  stays = λ e. h.stays (k.stays e);
}

pub Thins-refl : (ss : List AppSession) → Thins ss ss
Thins-refl [] = nothing
Thins-refl (s ∷ ss) = keep (IsKept-refl s) (Thins-refl ss)

pub Thins-trans : {ss ts us : List AppSession} → Thins ss ts → Thins ts us → Thins ss us
Thins-trans nothing nothing = nothing
Thins-trans h (drop k) = drop (Thins-trans h k)
Thins-trans (drop h) (keep e k) = drop (Thins-trans h k)
Thins-trans (keep d h) (keep e k) = keep (IsKept-trans d e) (Thins-trans h k)

-- A property of the kept parts.
pub All-Thins :
    (P : AppSession → Type 0)
    → ((s t : AppSession) → IsKept s t → P t → P s)
    → {ss ts : List AppSession} → Thins ss ts
    → All P ts
    → All P ss
All-Thins P f nothing h = tt
All-Thins P f (drop k) h = All-Thins P f k h.1
All-Thins P f (keep {s = s} {t = t} e k) h = (f s t e h.0, All-Thins P f k h.1)

weaken : (low high : ℕ) (ss : List AppSession) → low ≤ high → Ascending high ss → Ascending low ss
weaken low high [] le h = tt
weaken low high (s ∷ ss) le h = (omega arith, h.1)

Ascending-Thins :
    {ss ts : List AppSession} (low : ℕ) → Thins ss ts → Ascending low ts → Ascending low ss
Ascending-Thins low nothing h = tt
Ascending-Thins low (drop {t = t} {ss = ss} k) h =
    weaken low t.issuance_seq ss (omega arith) (Ascending-Thins t.issuance_seq k h.1)
Ascending-Thins low (keep {s = s} {t = t} {ss = ss} e k) h = (
  omega (arith, e.same_seq),
  weaken s.issuance_seq t.issuance_seq ss (omega (arith, e.same_seq))
      (Ascending-Thins t.issuance_seq k h.1),
)

IsFree-kept : (token : List ℕ) (s t : AppSession) → IsKept s t → IsFree token t → IsFree token s
IsFree-kept token s t e h = λ same. h (sym e.same_token ∙ same)

IsDistinct-Thins : {ss ts : List AppSession} → Thins ss ts → IsDistinct ts → IsDistinct ss
IsDistinct-Thins nothing h = tt
IsDistinct-Thins (drop k) h = IsDistinct-Thins k h.1
IsDistinct-Thins (keep {s = s} {t = t} {ss = ss} e k) h = (
  All-map (λ x free same. free (same ∙ e.same_token)) ss
      (All-Thins (IsFree t.token) (IsFree-kept t.token) k h.0),
  IsDistinct-Thins k h.1,
)

pub live_count-Thins : {ss ts : List AppSession} → Thins ss ts → live_count ss ≤ live_count ts
unfolding live_count
live_count-Thins nothing = omega arith
live_count-Thins (drop k) = ground (arith, live_count-Thins k)
live_count-Thins (keep e k) = ground (arith, live_count-Thins k, e.stays)

pub AreSound-Thins :
    {seq : ℕ} {ss ts : List AppSession} → Thins ss ts → AreSound seq ts → AreSound seq ss
AreSound-Thins {seq} k h = record {
  sized = All-Thins IsSized (λ s t e size. ap length e.same_token ∙ size) k h.sized;
  ascending = Ascending-Thins 0 k h.ascending;
  issued = All-Thins (IsIssued seq) (λ s t e le. omega (arith, e.same_seq)) k h.issued;
  distinct = IsDistinct-Thins k h.distinct;
  few = omega (arith, live_count-Thins k, h.few);
}

IsIssued-later :
    (a b : ℕ) (ss : List AppSession) → a ≤ b → All (IsIssued a) ss → All (IsIssued b) ss
IsIssued-later a b [] le h = tt
IsIssued-later a b (s ∷ ss) le h = (omega arith, IsIssued-later a b ss le h.1)

pub AreSound-later :
    {seq later : ℕ} {ss : List AppSession} → AreSound seq ss → seq ≤ later → AreSound later ss
AreSound-later {seq} {later} {ss} h le = record {
  sized = h.sized;
  ascending = h.ascending;
  issued = IsIssued-later seq later ss le h.issued;
  distinct = h.distinct;
  few = h.few;
}
