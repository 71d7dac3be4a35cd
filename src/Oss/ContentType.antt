-- ===== src/Oss/ContentType.antt =====
-- `guess_content_type`.
use scriptorium.FilePath.{FilePath, extension}
use scriptorium.Text.{Text, codes, text_eq}
use scriptorium.Base.{◌∷◌, List, [], if◌then◌else◌, none, some}

-- The arms of the match, in its order.
abbrev pub content_types : List (Text × Text)
content_types =
    (codes "json", codes "application/json")
    ∷ (codes "txt", codes "text/plain; charset=utf-8")
    ∷ (codes "html", codes "text/html; charset=utf-8")
    ∷ (codes "htm", codes "text/html; charset=utf-8")
    ∷ (codes "css", codes "text/css; charset=utf-8")
    ∷ (codes "js", codes "application/javascript")
    ∷ (codes "mjs", codes "application/javascript")
    ∷ (codes "csv", codes "text/csv; charset=utf-8")
    ∷ (codes "md", codes "text/markdown; charset=utf-8")
    ∷ (codes "xml", codes "application/xml")
    ∷ (codes "yaml", codes "application/yaml")
    ∷ (codes "yml", codes "application/yaml")
    ∷ (codes "png", codes "image/png")
    ∷ (codes "jpg", codes "image/jpeg")
    ∷ (codes "jpeg", codes "image/jpeg")
    ∷ (codes "gif", codes "image/gif")
    ∷ (codes "webp", codes "image/webp")
    ∷ (codes "svg", codes "image/svg+xml")
    ∷ (codes "pdf", codes "application/pdf")
    ∷ (codes "zip", codes "application/zip")
    ∷ (codes "gz", codes "application/gzip")
    ∷ (codes "tgz", codes "application/gzip")
    ∷ (codes "tar", codes "application/x-tar")
    ∷ (codes "mp3", codes "audio/mpeg")
    ∷ (codes "wav", codes "audio/wav")
    ∷ (codes "mp4", codes "video/mp4")
    ∷ (codes "webm", codes "video/webm")
    ∷ (codes "xlsx", codes "application/vnd.openxmlformats-officedocument.spreadsheetml.sheet")
    ∷ (
      codes "docx",
      codes "application/vnd.openxmlformats-officedocument.wordprocessingml.document",
    )
    ∷ (
      codes "pptx",
      codes "application/vnd.openxmlformats-officedocument.presentationml.presentation",
    )
    ∷ []

unfoldable pub lookup_type : Text → List (Text × Text) → Text
lookup_type ext [] = codes "application/octet-stream"
lookup_type ext ((e, t) ∷ rest) = if text_eq ext e then t else lookup_type ext rest

unfoldable pub guess_content_type : FilePath → Text
guess_content_type path = elim (extension path) [
  | none ↦ codes "application/octet-stream"
  | some ext ↦ lookup_type ext content_types
]
