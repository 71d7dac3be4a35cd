-- ===== src/Service/Stored.antt =====
-- What a raw import leaves in the file system.
use scriptorium.World.Fs.{create_dir_all}
use scriptorium.Error.{ok, Result, Status, err, Result-cases, Error}
use scriptorium.Text.{Text}
use scriptorium.Service.{SandboxService}
use scriptorium.FilePath.Laws.{starts_with-append, IsCleanPath}
use scriptorium.Service.Archive.{remove_path_if_exists, replace_workspace_file_from_staging}
use scriptorium.Service.Import.{
  receive_chunks, ImportPayload, header, chunk, saturating_add, missing,
}
use scriptorium.Workspace.{ensure_home, WorkspaceManager, home_dir}
use scriptorium.Base.{
  ◌≢◌, ◌≡◌, false, [], List, true, ℕ, subst, append-nil, arith, ◌∷◌, some, ◌++◌, inr, inl,
  Option-cases, length, ◌∙◌, ap, sym, none, append_assoc,
}
use scriptorium.World.Calls.{
  Env, History, created_dir_all, Bytes, chowned, set_mode, wrote, asked_metadata, renamed,
}
use scriptorium.World.{Io, pure, lift_io}
use scriptorium.FilePath.{FilePath, starts_with, parent}
use scriptorium.World.Store.{Contents, IsFileStore}
use scriptorium.Service.Received.{chunks_of}

-- `p` is neither `q` nor below it.
abbrev pub IsApart : FilePath → FilePath → Type 0
IsApart p q = starts_with p q ≡ false

pub apart_neq : (p q : FilePath) → IsApart p q → p ≢ q
apart_neq p q apart same =
    let below = starts_with-append q [] in
    let self : starts_with q q ≡ true = subst (λ r. starts_with r q ≡ true) (append-nil q) below in
    let other : starts_with q q ≡ false = subst (λ r. starts_with r q ≡ false) same apart in
    absurd (ground (arith, self, other))

-- A program that leaves all contents as they are.
abbrev pub KeepsContents {ℓ κ} : {E : Type ℓ} {A : Type κ} → Contents → Io E A → Type 0
KeepsContents c m = (h : History) (p : FilePath) → c (m h).0 p ≡ c h p

-- The first step of `replace_workspace_file_from_staging`.
abbrev pub make_parent : Env → FilePath → Io Error (Unit {0})
make_parent env target = elim (parent target) [
  | none ↦ pure tt
  | some p ↦ lift_io (create_dir_all env p)
]

module _ (env : Env) (c : Contents) (store : IsFileStore env c) where
  pub ensure_home-KeepsContents :
      (m : WorkspaceManager) (id : Text) (uid gid : ℕ)
      → KeepsContents c (ensure_home env m id uid gid)
  unfolding ensure_home
  ensure_home-KeepsContents m id uid gid h p =
      let home = home_dir m id in
      let q₁ = store.leaves.quiet h (created_dir_all home) p tt in
      let q₂ = store.leaves.quiet (created_dir_all home ∷ h) (chowned home uid gid) p tt in
      let q₃ =
        store.leaves.quiet (chowned home uid gid ∷ created_dir_all home ∷ h) (set_mode home 0o777) p
          tt in
      ground (arith, q₁, q₂, q₃)

  -- The chunks are appended, one behind the other.
  pub receive_chunks_stored :
      (svc : SandboxService) (clean : FilePath → FilePath) (staging : FilePath)
      (messages : List (Result Status ImportPayload)) (n w : ℕ) (h h' : History) (old bytes : Bytes)
      → receive_chunks env svc clean staging messages n h ≡ (h', ok w)
      → chunks_of messages ≡ some bytes
      → c h staging ≡ some old
      → IsCleanPath staging
      → (c h' staging ≡ some (old ++ bytes))
        × ((p : FilePath) → IsCleanPath p → p ≢ staging → c h' p ≡ c h p)
  unfolding receive_chunks
  receive_chunks_stored svc clean staging [] n w h h' old bytes e all_chunks held at_staging =
      let same : h ≡ h' = ground (arith, e) in
      let none_sent : [] ≡ bytes = ground (arith, all_chunks) in
      (
        subst (λ g. c g staging ≡ some (old ++ bytes)) same
            (held ∙ ap some (sym (append-nil old) ∙ ap (λ b. old ++ b) none_sent)),
        λ p _ other. ap (λ g. c g p) (sym same),
      )
  receive_chunks_stored svc clean staging (err status ∷ rest) n w h h' old bytes e all_chunks held
        at_staging =
      absurd (ground (arith, e))
  receive_chunks_stored svc clean staging (ok (header head) ∷ rest) n w h h' old bytes e all_chunks
        held at_staging =
      absurd (ground (arith, e))
  receive_chunks_stored svc clean staging (ok missing ∷ rest) n w h h' old bytes e all_chunks held
        at_staging =
      absurd (ground (arith, e))
  receive_chunks_stored svc clean staging (ok (chunk new) ∷ rest) n w h h' old bytes e all_chunks
        held at_staging =
      elim (Result-cases (env.write_all h staging new)) [
        | inr (why, p) ↦ absurd (ground (arith, p, e))
        | inl (_, p) ↦ elim (Option-cases (chunks_of rest)) [
          | inl none_left ↦ absurd (ground (arith, none_left, all_chunks))
          | inr (more, q) ↦
              let (held', others) =
                receive_chunks_stored svc clean staging rest (saturating_add n (length new)) w
                  (wrote staging new ∷ h) h' (old ++ new) more (ground (arith, p, e)) q
                  (store.written h staging old new p held) at_staging in
              (
                held'
                    ∙ ap some (
                        append_assoc old new more
                        ∙ ap (λ b. old ++ b) {x = new ++ more} {y = bytes}
                            (ground (arith, q, all_chunks))),
                λ r at_r other.
                    others r at_r other
                    ∙ store.leaves.written h staging r new at_staging at_r other,
              )
        ]
      ]

  remove_path_if_exists_stored :
      (target : FilePath) (h : History) (p : FilePath)
      → IsCleanPath target
      → IsCleanPath p
      → IsApart p target
      → c (remove_path_if_exists env target h).0 p ≡ c h p
  unfolding remove_path_if_exists
  remove_path_if_exists_stored target h p at_target at_p apart =
      let h₁ = asked_metadata target ∷ h in
      let q₁ = store.leaves.quiet h (asked_metadata target) p tt in
      let q₂ = store.leaves.removed h₁ target p at_target at_p (apart_neq p target apart) in
      let q₃ = store.leaves.removed_dir h₁ target p at_target at_p apart in
      ground (arith, q₁, q₂, q₃)

  make_parent-KeepsContents : (target : FilePath) → KeepsContents c (make_parent env target)
  make_parent-KeepsContents target h p = elim (Option-cases (parent target)) [
    | inl none_there ↦ ground (arith, none_there)
    | inr (up, q) ↦ let q₁ = store.leaves.quiet h (created_dir_all up) p tt in ground (arith, q, q₁)
  ]

  -- The staging file becomes the target.
  pub replace_stored :
      (staging target : FilePath) (h h' : History) (bytes : Bytes)
      → replace_workspace_file_from_staging env staging target h ≡ (h', ok tt)
      → IsApart staging target
      → c h staging ≡ some bytes
      → IsCleanPath staging
      → IsCleanPath target
      → (c h' target ≡ some bytes)
        × ((p : FilePath) → IsCleanPath p → IsApart p target → IsApart p staging → c h' p ≡ c h p)
  unfolding replace_workspace_file_from_staging
  replace_stored staging target h h' bytes e apart held at_staging at_target =
      let s₁ = make_parent env target h in
      elim (Result-cases s₁.1) [
        | inr (why, p) ↦ absurd (ground (arith, p, e))
        | inl (_, p) ↦
            let s₂ = remove_path_if_exists env target s₁.0 in
            elim (Result-cases s₂.1) [
              | inr (why, q) ↦ absurd (ground (arith, p, q, e))
              | inl (_, q) ↦ elim (Result-cases (env.rename s₂.0 staging target)) [
                | inr (why, r) ↦ absurd (ground (arith, p, q, r, e))
                | inl (_, r) ↦
                    let ended : renamed staging target ∷ s₂.0 ≡ h' = ground (arith, p, q, r, e) in
                    let kept : (f : FilePath)
                        → IsCleanPath f
                        → IsApart f target
                        → c s₂.0 f ≡ c h f =
                      λ f at_f far.
                        remove_path_if_exists_stored target s₁.0 f at_target at_f far
                        ∙ make_parent-KeepsContents target h f in
                    (
                      subst (λ g. c g target ≡ some bytes) ended
                          (store.moved s₂.0 staging target bytes r
                            (kept staging at_staging apart ∙ held)),
                      λ f at_f far far'.
                          subst (λ g. c g f ≡ c h f) ended
                            (store.leaves.moved s₂.0 staging target f at_staging at_target at_f far'
                                far
                              ∙ kept f at_f far),
                    )
              ]
            ]
      ]
