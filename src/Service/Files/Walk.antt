-- ===== src/Service/Files/Walk.antt =====
-- The walk of `collect_files` over a finite tree of directories.
use scriptorium.Service.Files.Tree.{
  Tree, here, dir_count, entries_of, IsListed, everything, file, dir, empty,
}
use scriptorium.Error.{Result, IoError, ok}
use scriptorium.World.Calls.{Env, Metadata, History, DirEntry, listed_dir}
use scriptorium.Base.{
  List, ℕ, ◌∷◌, ◌≡◌, false, suc, [], ◌++◌, ◌+◌, true, ◌∙◌, arith, sym, ap, append_assoc, append-nil,
  refl, if◌then◌else◌, ◌&&◌, ◌≤◌, zero, Bool, ◌<◌, subst,
}
use scriptorium.FilePath.{FilePath}
use mathlib.Core.List.{Perm, perm_middle}
use mathlib.Core.List.Perm
use scriptorium.Service.Files.{FileInfo, file_info, list_entries, collect_files}

-- In the order in which the walk comes to them, what is in the subdirectories.
abbrev below : FilePath → Tree → List FileInfo
below root empty = []
below root (file path meta rest) = below root rest
below root (dir path meta inside rest) = below root rest ++ (here root inside ++ below root inside)

abbrev Stack : Type 0
Stack = List (FilePath × Tree)

abbrev paths : Stack → List FilePath
paths [] = []
paths ((path, _) ∷ stack) = path ∷ paths stack

abbrev push : Tree → Stack → Stack
push empty stack = stack
push (file path meta rest) stack = push rest stack
push (dir path meta inside rest) stack = push rest ((path, inside) ∷ stack)

abbrev listing : FilePath → Stack → List FileInfo
listing root [] = []
listing root ((_, inside) ∷ stack) = (here root inside ++ below root inside) ++ listing root stack

abbrev size : Stack → ℕ
size [] = 0
size ((_, inside) ∷ stack) = suc (dir_count inside) + size stack

abbrev AreListed : Env → Stack → Type 0
AreListed env [] = Unit
AreListed env ((path, inside) ∷ stack) =
    ((h : History) → env.read_dir h path ≡ ok (entries_of inside))
    × IsListed env inside
    × AreListed env stack

size-push : (t : Tree) (stack : Stack) → size (push t stack) ≡ dir_count t + size stack
size-push empty stack = omega arith
size-push (file path meta rest) stack = size-push rest stack
size-push (dir path meta inside rest) stack = size-push rest ((path, inside) ∷ stack) ∙ omega arith

listing-push :
    (root : FilePath) (t : Tree) (stack : Stack)
    → listing root (push t stack) ≡ below root t ++ listing root stack
listing-push root empty stack = refl
listing-push root (file path meta rest) stack = listing-push root rest stack
listing-push root (dir path meta inside rest) stack =
    listing-push root rest ((path, inside) ∷ stack)
    ∙ sym (
        append_assoc (below root rest) (here root inside ++ below root inside) (listing root stack))

push-AreListed :
    (env : Env) (t : Tree) (stack : Stack)
    → IsListed env t
    → AreListed env stack
    → AreListed env (push t stack)
push-AreListed env empty stack t-ok stack-ok = stack-ok
push-AreListed env (file path meta rest) stack (_, rest-ok) stack-ok =
    push-AreListed env rest stack rest-ok stack-ok
push-AreListed env (dir path meta inside rest) stack (_, reads, inside-ok, rest-ok) stack-ok =
    push-AreListed env rest ((path, inside) ∷ stack) rest-ok (reads, inside-ok, stack-ok)

list_entries-push :
    (env : Env) (root : FilePath) (t : Tree) (stack : Stack) (out : List FileInfo)
    → IsListed env t
    → list_entries root true (entries_of t) (paths stack) out
      ≡ ok (paths (push t stack), out ++ here root t)
unfolding list_entries
list_entries-push env root empty stack out t-ok =
    ap (λ o. ok (paths stack, o)) (sym (append-nil out))
list_entries-push env root (file path meta rest) stack out (is_file, rest-ok) =
    ap
      (λ b.
        list_entries root true (entries_of rest)
          (if b && true then path ∷ paths stack else paths stack)
          (out ++ (file_info root path meta ∷ [])))
      is_file
    ∙ list_entries-push env root rest stack (out ++ (file_info root path meta ∷ [])) rest-ok
    ∙ ap (λ o. ok (paths (push rest stack), o))
        (append_assoc out (file_info root path meta ∷ []) (here root rest))
list_entries-push env root (dir path meta inside rest) stack out (is_dir, _, _, rest-ok) =
    ap
      (λ b.
        list_entries root true (entries_of rest)
          (if b && true then path ∷ paths stack else paths stack)
          (out ++ (file_info root path meta ∷ [])))
      is_dir
    ∙ list_entries-push env root rest ((path, inside) ∷ stack)
        (out ++ (file_info root path meta ∷ [])) rest-ok
    ∙ ap (λ o. ok (paths (push rest ((path, inside) ∷ stack)), o))
        (append_assoc out (file_info root path meta ∷ []) (here root rest))

listed-here :
    (root path : FilePath) (meta : Metadata) (rest : List (Result IoError DirEntry))
    (stack : List FilePath) (out : List FileInfo)
    → list_entries root false (ok (record { path = path; meta = ok meta }) ∷ rest) stack out
      ≡ list_entries root false rest stack (out ++ (file_info root path meta ∷ []))
unfolding list_entries
listed-here root path meta rest stack out =
    ap
      (λ b.
        list_entries root false rest (if b then path ∷ stack else stack)
          (out ++ (file_info root path meta ∷ [])))
      {x = meta.is_dir && false} {y = false} (ground arith)

list_entries-here :
    (env : Env) (root : FilePath) (t : Tree) (stack : List FilePath) (out : List FileInfo)
    → list_entries root false (entries_of t) stack out ≡ ok (stack, out ++ here root t)
unfolding list_entries
list_entries-here env root empty stack out = ap (λ o. ok (stack, o)) (sym (append-nil out))
list_entries-here env root (file path meta rest) stack out =
    listed-here root path meta (entries_of rest) stack out
    ∙ list_entries-here env root rest stack (out ++ (file_info root path meta ∷ []))
    ∙ ap (λ o. ok (stack, o)) (append_assoc out (file_info root path meta ∷ []) (here root rest))
list_entries-here env root (dir path meta inside rest) stack out =
    listed-here root path meta (entries_of rest) stack out
    ∙ list_entries-here env root rest stack (out ++ (file_info root path meta ∷ []))
    ∙ ap (λ o. ok (stack, o)) (append_assoc out (file_info root path meta ∷ []) (here root rest))

collect_files-step :
    (env : Env) (root : FilePath) (recursive : Bool) (fuel : ℕ) (top : FilePath)
    (stack stack' : List FilePath) (out out' : List FileInfo) (rd : List (Result IoError DirEntry))
    (h : History)
    → env.read_dir h top ≡ ok rd
    → list_entries root recursive rd stack out ≡ ok (stack', out')
    → collect_files env (suc fuel) root recursive (top ∷ stack) out h
      ≡ collect_files env fuel root recursive stack' out' (listed_dir top ∷ h)
unfolding collect_files
collect_files-step env root recursive fuel top stack stack' out out' rd h reads listed =
    ground (arith, reads, listed)

regroup :
    (root : FilePath) (t : Tree) (stack : Stack) (out : List FileInfo)
    → (out ++ here root t) ++ listing root (push t stack)
      ≡ out ++ ((here root t ++ below root t) ++ listing root stack)
regroup root t stack out =
    append_assoc out (here root t) (listing root (push t stack))
    ∙ ap (λ o. out ++ (here root t ++ o)) (listing-push root t stack)
    ∙ ap (λ o. out ++ o) (sym (append_assoc (here root t) (below root t) (listing root stack)))

-- The stack is walked with fuel for all directories on it and below.
collect_files-listing :
    (env : Env) (root : FilePath) (fuel : ℕ) (stack : Stack) (out : List FileInfo) (h : History)
    → AreListed env stack
    → size stack ≤ fuel
    → (h' : History) × (collect_files env fuel root true (paths stack) out h
        ≡ (h', ok (out ++ listing root stack)))
unfolding collect_files
collect_files-listing env root fuel [] out h all_ok enough =
    (h, ap (λ o. (h, ok o)) (sym (append-nil out)))
collect_files-listing env root zero ((path, inside) ∷ stack) out h all_ok enough =
    absurd (omega (arith, enough))
collect_files-listing env root (suc fuel) ((path, inside) ∷ stack) out h
      (reads, inside-ok, stack-ok) enough =
    let (h', e) =
      collect_files-listing env root fuel (push inside stack) (out ++ here root inside)
        (listed_dir path ∷ h) (push-AreListed env inside stack inside-ok stack-ok)
        (omega (arith, enough, size-push inside stack)) in
    (
      h',
      collect_files-step env root true fuel path (paths stack) (paths (push inside stack)) out
            (out ++ here root inside) (entries_of inside) h (reads h)
            (list_entries-push env root inside stack out inside-ok)
          ∙ e
          ∙ ap (λ o. (h', ok o)) (regroup root inside stack out),
    )

append_comm {ℓ} : {A : Type ℓ} (xs ys : List A) → Perm (xs ++ ys) (ys ++ xs)
append_comm [] ys = subst (Perm ys) (sym (append-nil ys)) (Perm.refl ys)
append_comm (x ∷ xs) ys =
    Perm.trans (Perm.cons x (append_comm xs ys)) (Perm.symm (perm_middle ys xs))

below-everything :
    (root : FilePath) (t : Tree) → Perm (here root t ++ below root t) (everything root t)
below-everything root empty = Perm.refl []
below-everything root (file path meta rest) =
    Perm.cons (file_info root path meta) (below-everything root rest)
below-everything root (dir path meta inside rest) = Perm.cons (file_info root path meta) (
    subst (λ l. Perm l (everything root inside ++ everything root rest))
      (append_assoc (here root rest) (below root rest) (here root inside ++ below root inside))
      (Perm.trans (Perm.append (below-everything root rest) (below-everything root inside))
        (append_comm (everything root rest) (everything root inside))))

-- Where `read_dir` answers as a finite tree of directories says, whatever was asked before,
-- `collect_files` ends without an error, given more fuel than there are directories below, and lists
-- each entry of the tree exactly once, in some order. Without `recursive`, it asks for the directory
-- itself only and lists its entries in their order.
pub collect_files_lists :
    (env : Env) (root base : FilePath) (t : Tree) (fuel : ℕ) (h : History)
    → IsListed env t
    → ((g : History) → env.read_dir g base ≡ ok (entries_of t))
    → dir_count t < fuel
    → ((h' : History) × (out : List FileInfo) × (collect_files env fuel root true (base ∷ []) [] h
          ≡ (h', ok out))
        × Perm out (everything root t))
      × (collect_files env fuel root false (base ∷ []) [] h
          ≡ (listed_dir base ∷ h, ok (here root t)))
unfolding collect_files
collect_files_lists env root base t zero h t-ok reads enough = absurd (omega (arith, enough))
collect_files_lists env root base t (suc fuel) h t-ok reads enough =
    let (h', e) =
      collect_files-listing env root (suc fuel) ((base, t) ∷ []) [] h (reads, t-ok, tt)
        (omega (arith, enough)) in
    (
      (
        h',
        listing root ((base, t) ∷ []),
        e,
        subst (λ l. Perm l (everything root t)) (sym (append-nil (here root t ++ below root t)))
            (below-everything root t),
      ),
      collect_files-step env root false fuel base [] [] [] (here root t) (entries_of t) h (reads h)
            (list_entries-here env root t [] [])
          ∙ refl,
    )
