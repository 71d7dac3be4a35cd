-- ===== src/World.antt =====
-- Programs that ask the environment: a function from the history to the longer history and a
-- result. `?` on an error of another type is `lift_io`, `lift_docker` or `lift_status`.
pub mod Calls
pub mod Fs
pub mod Store
pub mod Trace
use scriptorium.Base.{List, Option, ℕ, some, if◌then◌else◌, ltb, length, ◌+◌, drop, ◌-◌, none}
use scriptorium.Text.{Text}
use scriptorium.Error.{IoError, Error, io, docker, Status, status_of, Result, ok, err}
use Calls.{History, Env}

abbrev pub Io {ℓ κ} : Type ℓ → Type κ → Type (ℓ ⊔ κ)
Io E A = History → History × Result E A

abbrev pub pure {ℓ κ} : {E : Type ℓ} {A : Type κ} → A → Io E A
pure a h = (h, ok a)

abbrev pub fail {ℓ κ} : {E : Type ℓ} {A : Type κ} → E → Io E A
fail e h = (h, err e)

abbrev pub of_result {ℓ κ} : {E : Type ℓ} {A : Type κ} → Result E A → Io E A
of_result r h = (h, r)

infixl 5 ◌>>=◌ ◌>>◌
abbrev pub ◌>>=◌ {ℓ κ μ} : {E : Type ℓ} {A : Type κ} {B : Type μ} → Io E A → (A → Io E B) → Io E B
◌>>=◌ m f h = let s = m h in elim s.1 [ ok a ↦ f a s.0 | err e ↦ (s.0, err e) ]

abbrev pub ◌>>◌ {ℓ κ} : {E : Type ℓ} {B : Type κ} → Io E (Unit {0}) → Io E B → Io E B
m >> k = m >>= λ _. k

abbrev pub map_err {ℓ κ μ} :
    {E : Type ℓ} {F : Type κ} {A : Type μ} → (E → F) → Result E A → Result F A
map_err f (ok a) = ok a
map_err f (err e) = err (f e)

abbrev pub lift_err {ℓ κ μ} : {E : Type ℓ} {F : Type κ} {A : Type μ} → (E → F) → Io E A → Io F A
lift_err f m h = let s = m h in (s.0, map_err f s.1)

abbrev pub lift_io {κ} : {A : Type κ} → Io IoError A → Io Error A
lift_io = lift_err io

abbrev pub lift_docker {κ} : {A : Type κ} → Io Text A → Io Error A
lift_docker = lift_err docker

abbrev pub lift_status {κ} : {A : Type κ} → Io Error A → Io Status A
lift_status = lift_err status_of

-- `?` on an error of the file system where the function gives a status: tonic's conversion.
abbrev pub lift_file {κ} : {A : Type κ} → Env → Io IoError A → Io Status A
lift_file env = lift_err env.io_status

-- `let _ = m`: the result is not looked at.
abbrev pub ignore {ℓ κ μ} : {E : Type ℓ} {F : Type κ} {A : Type μ} → Io E A → Io F (Unit {0})
ignore m h = ((m h).0, ok tt)

-- `m`, with its result as a value that the code goes on to match.
abbrev pub attempt {ℓ κ μ} : {E : Type ℓ} {F : Type κ} {A : Type μ} → Io E A → Io F (Result E A)
attempt m h = let s = m h in (s.0, ok s.1)

-- `tokio::time::timeout`: where the deadline passes first, the future is dropped after some of its
-- requests, and `late` is the error.
abbrev pub with_timeout {ℓ κ} : {E : Type ℓ} {A : Type κ} → Option ℕ → E → Io E A → Io E A
with_timeout none late m h = m h
with_timeout (some n) late m h =
    let s = m h in
    if ltb (length h + n) (length s.0)
    then (drop (length s.0 - (length h + n)) s.0, err late)
    else s
