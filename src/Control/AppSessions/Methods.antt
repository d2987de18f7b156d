-- ===== src/Control/AppSessions/Methods.antt =====
-- What each method of the registry in apps/control-plane/src/state.rs does to the sessions.
use fanzloud.Base.{
  ℕ, zero, suc, ◌+◌, ◌≤◌, ◌<◌, ◌≡◌, refl, sym, subst, ◌∙◌, ◌&&◌, ◌==◌, false, List, [], ◌∷◌, ◌++◌,
  length, All, All-append, arith, Bool-cases, inl, inr,
}
use fanzloud.Control.Bytes.{fixed_token_eq, fixed_token_compare_exact}
use fanzloud.Control.AppSessions.{
  AppSession, AppSessionRegistry, expire, is_retained, expire_all, retain_all, insert_by_seq,
  sort_by_seq, prune_expired, live_count, any_token, at_index, entered, invalidate_first,
  release_first, left, is_finished,
}
use fanzloud.Control.AppSessions.Sound.{
  Ascending, IsFree, IsDistinct, IsSized, IsIssued, AreSound, IsSound, IsKept, Thins, nothing, drop,
  keep, IsKept-refl, Thins-refl, Thins-trans, AreSound-Thins,
}

expire-IsKept : (now : ℕ) (s : AppSession) → IsKept (expire now s) s
expire-IsKept now s = record {
  same_token = ground arith;
  same_seq = ground arith;
  same_expiry = ground arith;
  stays = ground arith;
}

expire_all-Thins : (now : ℕ) (ss : List AppSession) → Thins (expire_all now ss) ss
unfolding expire_all
expire_all-Thins now [] = nothing
expire_all-Thins now (s ∷ ss) = keep (expire-IsKept now s) (expire_all-Thins now ss)

retain_all-Thins : (ss : List AppSession) → Thins (retain_all ss) ss
unfolding retain_all
retain_all-Thins [] = nothing
retain_all-Thins (s ∷ ss) = elim (Bool-cases (is_retained s)) [
  | inl kept ↦ rw kept (keep (IsKept-refl s) (retain_all-Thins ss))
  | inr gone ↦ rw gone (drop (retain_all-Thins ss))
]

sort-Ascending : (low : ℕ) (ss : List AppSession) → Ascending low ss → sort_by_seq ss ≡ ss
unfolding sort_by_seq insert_by_seq
sort-Ascending low [] h = refl
sort-Ascending low (s ∷ []) h = refl
sort-Ascending low (s ∷ t ∷ ss) h = ground (arith, sort-Ascending s.issuance_seq (t ∷ ss) h.1)

module _ (r : AppSessionRegistry) (h : IsSound r) (now : ℕ) where
  pruned-Thins : Thins (retain_all (expire_all now r.sessions)) r.sessions
  pruned-Thins =
      Thins-trans (retain_all-Thins (expire_all now r.sessions)) (expire_all-Thins now r.sessions)

  pub prune_expired-sessions :
      (prune_expired r now).sessions ≡ retain_all (expire_all now r.sessions)
  unfolding prune_expired
  prune_expired-sessions =
      sort-Ascending 0 (retain_all (expire_all now r.sessions))
        (AreSound-Thins pruned-Thins h).ascending

  pub prune_expired-Thins : Thins (prune_expired r now).sessions r.sessions
  prune_expired-Thins = subst (λ ss. Thins ss r.sessions) (sym prune_expired-sessions) pruned-Thins

  pub prune_expired-IsSound : AreSound r.issuance_seq (prune_expired r now).sessions
  prune_expired-IsSound = AreSound-Thins prune_expired-Thins h

entered-IsKept : (s : AppSession) → IsKept (entered s) s
entered-IsKept s = record { same_token = refl; same_seq = refl; same_expiry = refl; stays = λ e. e }

pub at_index-Thins : (index : ℕ) (ss : List AppSession) → Thins (at_index index entered ss) ss
unfolding at_index
at_index-Thins index [] = nothing
at_index-Thins zero (s ∷ ss) = keep (entered-IsKept s) (Thins-refl ss)
at_index-Thins (suc index) (s ∷ ss) = keep (IsKept-refl s) (at_index-Thins index ss)

pub invalidate_first-Thins :
    (cookie : List ℕ) (seq : ℕ) (ss : List AppSession) → Thins (invalidate_first cookie seq ss) ss
unfolding invalidate_first
invalidate_first-Thins cookie seq [] = nothing
invalidate_first-Thins cookie seq (s ∷ ss) =
    elim (Bool-cases (s.issuance_seq == seq && fixed_token_eq s.token cookie)) [
      | inl here ↦ rw here (
          keep
            (record { same_token = refl; same_seq = refl; same_expiry = refl; stays = λ e. refl })
            (Thins-refl ss))
      | inr elsewhere ↦ rw elsewhere (keep (IsKept-refl s) (invalidate_first-Thins cookie seq ss))
    ]

left-IsKept : (s : AppSession) → IsKept (left s) s
left-IsKept s = record { same_token = refl; same_seq = refl; same_expiry = refl; stays = λ e. e }

pub release_first-Thins : (seq : ℕ) (ss : List AppSession) → Thins (release_first seq ss).0 ss
unfolding release_first
release_first-Thins seq [] = nothing
release_first-Thins seq (s ∷ ss) = elim (Bool-cases (s.issuance_seq == seq)) [
  | inr elsewhere ↦ rw elsewhere (keep (IsKept-refl s) (release_first-Thins seq ss))
  | inl here ↦ elim (Bool-cases (is_finished (left s))) [
    | inl done ↦ rw (here, done) (drop (Thins-refl ss))
    | inr not_yet ↦ rw (here, not_yet) (keep (left-IsKept s) (Thins-refl ss))
  ]
]

IsFree-tokens :
    (token : List ℕ) (ss : List AppSession)
    → length token ≡ 43
    → All IsSized ss
    → any_token token ss ≡ false
    → All (IsFree token) ss
unfolding any_token
IsFree-tokens token [] size sized none_has = tt
IsFree-tokens token (s ∷ ss) size sized none_has = (
  λ same. cc ((fixed_token_compare_exact s.token token (sized.0 ∙ sym size)).0.1 same, none_has),
  IsFree-tokens token ss size sized.1 (ground arith),
)

IsDistinct-append :
    (s : AppSession) (ss : List AppSession)
    → IsDistinct ss
    → All (IsFree s.token) ss
    → IsDistinct (ss ++ s ∷ [])
IsDistinct-append s [] h free = (tt, tt)
IsDistinct-append s (t ∷ ss) h free = (
  All-append (IsFree t.token) ss (s ∷ []) h.0 (λ same. free.0 (sym same), tt),
  IsDistinct-append s ss h.1 free.1,
)

Ascending-append :
    (s : AppSession) (low seq : ℕ) (ss : List AppSession)
    → Ascending low ss
    → All (IsIssued seq) ss
    → seq < s.issuance_seq
    → low ≤ seq
    → Ascending low (ss ++ s ∷ [])
Ascending-append s low seq [] h issued above le = (omega arith, tt)
Ascending-append s low seq (t ∷ ss) h issued above le =
    (h.0, Ascending-append s t.issuance_seq seq ss h.1 issued.1 above issued.0)

live_count-append :
    (s : AppSession) (ss : List AppSession) → live_count (ss ++ s ∷ []) ≤ live_count ss + 1
unfolding live_count
live_count-append s [] = ground arith
live_count-append s (t ∷ ss) = ground (arith, live_count-append s ss)

IsIssued-suc :
    (seq : ℕ) (ss : List AppSession) → All (IsIssued seq) ss → All (IsIssued (seq + 1)) ss
IsIssued-suc seq [] h = tt
IsIssued-suc seq (s ∷ ss) h = (omega arith, IsIssued-suc seq ss h.1)

pub issued-AreSound :
    (s : AppSession) (seq : ℕ) (ss : List AppSession)
    → AreSound seq ss
    → live_count ss < 4
    → length s.token ≡ 43
    → any_token s.token ss ≡ false
    → s.issuance_seq ≡ seq + 1
    → AreSound (seq + 1) (ss ++ s ∷ [])
issued-AreSound s seq ss h room size fresh next = record {
  sized = All-append IsSized ss (s ∷ []) h.sized (size, tt);
  ascending = Ascending-append s 0 seq ss h.ascending h.issued (omega arith) (omega arith);
  issued =
      All-append (IsIssued (seq + 1)) ss (s ∷ []) (IsIssued-suc seq ss h.issued) (omega arith, tt);
  distinct = IsDistinct-append s ss h.distinct (IsFree-tokens s.token ss size h.sized fresh);
  few = omega (arith, live_count-append s ss);
}
