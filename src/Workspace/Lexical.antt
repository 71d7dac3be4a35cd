-- ===== src/Workspace/Lexical.antt =====
-- What `path_clean` documents, and the lexical walk that follows from it.
use scriptorium.Base.{
  ◌≡◌, refl, sym, ap, ◌∙◌, [], ◌∷◌, ◌++◌, All, append-nil, append_assoc, All-append,
}
use scriptorium.Text.{Text}
use scriptorium.FilePath.{Component, root_dir, cur_dir, parent_dir, normal, FilePath, init}
use scriptorium.FilePath.Laws.{IsNormal, IsRootless}

-- The rules of the crate's documentation, for absolute paths: `.` is dropped, `..` is dropped with
-- the name before it, or alone at the root, and a path with neither is left as it is. (The rule on
-- repeated slashes is about texts, and two such texts are one path here.)
pub record IsPathClean (clean : FilePath → FilePath) : Type 0 where
  pub drops_cur :
      (xs ys : FilePath) → clean (root_dir ∷ xs ++ cur_dir ∷ ys) ≡ clean (root_dir ∷ xs ++ ys)
  pub drops_inner :
      (xs ys : FilePath) (s : Text)
      → clean (root_dir ∷ xs ++ normal s ∷ parent_dir ∷ ys) ≡ clean (root_dir ∷ xs ++ ys)
  pub drops_root : (ys : FilePath) → clean (root_dir ∷ parent_dir ∷ ys) ≡ clean (root_dir ∷ ys)
  pub keeps : (ns : FilePath) → All IsNormal ns → clean (root_dir ∷ ns) ≡ root_dir ∷ ns

-- Where a walk from a directory below the root ends: a name goes down, `..` goes up, but not
-- above the root.
unfoldable pub walk : FilePath → FilePath → FilePath
walk dir [] = dir
walk dir (root_dir ∷ p) = walk [] p
walk dir (cur_dir ∷ p) = walk dir p
walk dir (parent_dir ∷ p) = walk (init dir) p
walk dir (normal s ∷ p) = walk (dir ++ normal s ∷ []) p

pub init-IsNormal : (p : FilePath) → All IsNormal p → All IsNormal (init p)
init-IsNormal [] h = tt
init-IsNormal (c ∷ []) h = tt
init-IsNormal (c ∷ d ∷ p) h = (h.0, init-IsNormal (d ∷ p) h.1)

init-append_last :
    (c : Component) (p : FilePath)
    → All IsNormal (c ∷ p)
    → (s : Text) × (c ∷ p ≡ init (c ∷ p) ++ normal s ∷ [])
init-append_last (normal s) [] h = (s, refl)
init-append_last root_dir [] h = absurd h.0
init-append_last cur_dir [] h = absurd h.0
init-append_last parent_dir [] h = absurd h.0
init-append_last c (d ∷ p) h = let (s, e) = init-append_last d p h.1 in (s, ap (λ q. c ∷ q) e)

pub walk-IsNormal : (dir p : FilePath) → All IsNormal dir → All IsNormal (walk dir p)
unfolding walk
walk-IsNormal dir [] h = h
walk-IsNormal dir (root_dir ∷ p) h = walk-IsNormal [] p tt
walk-IsNormal dir (cur_dir ∷ p) h = walk-IsNormal dir p h
walk-IsNormal dir (parent_dir ∷ p) h = walk-IsNormal (init dir) p (init-IsNormal dir h)
walk-IsNormal dir (normal s ∷ p) h =
    walk-IsNormal (dir ++ normal s ∷ []) p
      ((All-append IsNormal dir (normal s ∷ [])).1 (h, (tt, tt)))

-- Names alone are appended.
pub walk_names : (dir p : FilePath) → All IsNormal p → walk dir p ≡ dir ++ p
unfolding walk
walk_names dir [] h = sym (append-nil dir)
walk_names dir (normal s ∷ p) h = walk_names (dir ++ normal s ∷ []) p h.1 ∙ append_assoc dir _ p
walk_names dir (root_dir ∷ p) h = absurd h.0
walk_names dir (cur_dir ∷ p) h = absurd h.0
walk_names dir (parent_dir ∷ p) h = absurd h.0

module _ (clean : FilePath → FilePath) (laws : IsPathClean clean) where
  clean_parent :
      (dir p : FilePath)
      → All IsNormal dir
      → clean (root_dir ∷ dir ++ parent_dir ∷ p) ≡ clean (root_dir ∷ init dir ++ p)
  clean_parent [] p h = laws.drops_root p
  clean_parent (c ∷ dir) p h =
      let (s, e) = init-append_last c dir h in
      ap (λ q. clean (root_dir ∷ q ++ parent_dir ∷ p)) e
      ∙ ap (λ q. clean (root_dir ∷ q))
          (append_assoc (init (c ∷ dir)) (normal s ∷ []) (parent_dir ∷ p))
      ∙ laws.drops_inner (init (c ∷ dir)) p s

  -- The documented rules fix `clean` on every absolute path: it ends where the walk ends.
  pub clean-walk :
      (dir p : FilePath)
      → All IsNormal dir
      → All IsRootless p
      → clean (root_dir ∷ dir ++ p) ≡ root_dir ∷ walk dir p
  unfolding walk
  clean-walk dir [] h r = rw append-nil (laws.keeps dir h)
  clean-walk dir (root_dir ∷ p) h r = absurd r.0
  clean-walk dir (cur_dir ∷ p) h r = laws.drops_cur dir p ∙ clean-walk dir p h r.1
  clean-walk dir (parent_dir ∷ p) h r =
      clean_parent dir p h ∙ clean-walk (init dir) p (init-IsNormal dir h) r.1
  clean-walk dir (normal s ∷ p) h r =
      ap (λ q. clean (root_dir ∷ q)) (sym (append_assoc dir (normal s ∷ []) p))
      ∙ clean-walk (dir ++ normal s ∷ []) p
          ((All-append IsNormal dir (normal s ∷ [])).1 (h, (tt, tt))) r.1
