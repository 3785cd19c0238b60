-- ===== src/Documents/Intake.antt =====
-- What the intake looks at before it accepts bytes (documents/application/services.py and
-- documents/infrastructure/scanner.py): the file's name, its first bytes, an archive's listing, and
-- the scanner.
use biaice.Common.{
  ℕ, ◌+◌, Bool, true, false, not, ◌&&◌, ◌||◌, Option, none, some, List, [], ◌∷◌, ◌++◌, map, Text,
  codes, text_eq, lower, ltb, ◌==◌, any, keep, last?, length, is_empty, if◌then◌else◌,
}
use biaice.Core.Errors.{Result, ok, err, stable, ◌>>◌, raise_if}
use biaice.Core.Errors.Code.{request_validation_failed, document_type_blocked}
use biaice.Documents.Model.{DocumentMimeCategory, pdf, docx, xlsx, image, archive, unknown}

-- `c in text` and `text.count(c)`
unfoldable pub count_of : ℕ → Text → ℕ
count_of c [] = 0
count_of c (x ∷ t) = (if x == c then 1 else 0) + count_of c t

-- `text.startswith(prefix)`
unfoldable pub starts_with : Text → Text → Bool
starts_with [] t = true
starts_with (p ∷ ps) [] = false
starts_with (p ∷ ps) (c ∷ t) = p == c && starts_with ps t

-- `part in text`
unfoldable pub contains_part : Text → Text → Bool
contains_part part [] = is_empty part
contains_part part (c ∷ t) = starts_with part (c ∷ t) || contains_part part t

-- `text.replace("\\", "/")`
abbrev slashes : Text → Text
slashes t = map (λ c. if c == 92 then 47 else c) t

-- `text.split("/")`: the first part, and the rest.
unfoldable pub split_slash : Text → List Text
split_slash [] = [] ∷ []
split_slash (c ∷ t) = let rest = split_slash t in if c == 47 then [] ∷ rest else prepend rest
  where
    prepend : List Text → List Text
    prepend [] = (c ∷ []) ∷ []
    prepend (p ∷ ps) = (c ∷ p) ∷ ps

abbrev is_dot : Text → Bool
is_dot p = is_empty p || text_eq p (codes ".")

-- `PurePosixPath(text).parts` without the root, and its `name`.
abbrev pub path_parts : Text → List Text
path_parts t = keep (λ p. not (is_dot p)) (split_slash t)

abbrev or_empty : Option Text → Text
or_empty none = []
or_empty (some t) = t

abbrev path_name : Text → Text
path_name t = or_empty (last? (path_parts t))

-- The text from its last dot on.
unfoldable pub from_last_dot : Text → Option Text
from_last_dot [] = none
from_last_dot (c ∷ t) = or_here (from_last_dot t)
  where
    or_here : Option Text → Option Text
    or_here (some s) = some s
    or_here none = if c == 46 then some (c ∷ t) else none

-- `PurePosixPath(name).suffix`: not at the start of the name, and not a lone dot at its end.
abbrev suffix_in : Text → Option Text → Text
suffix_in name none = []
suffix_in name (some s) = if length s == length name || length s == 1 then [] else s

unfoldable pub path_suffix : Text → Text
unfolding from_last_dot
path_suffix t = suffix_in (path_name t) (from_last_dot (path_name t))

unfoldable pub blocked_extensions : List Text
blocked_extensions =
    codes ".exe"
    ∷ codes ".bat"
    ∷ codes ".cmd"
    ∷ codes ".com"
    ∷ codes ".msi"
    ∷ codes ".dll"
    ∷ codes ".scr"
    ∷ codes ".pif"
    ∷ codes ".vbs"
    ∷ codes ".jse"
    ∷ codes ".wsf"
    ∷ codes ".wsh"
    ∷ codes ".ps1"
    ∷ codes ".psm1"
    ∷ codes ".sh"
    ∷ codes ".bash"
    ∷ codes ".jar"
    ∷ codes ".class"
    ∷ codes ".doc"
    ∷ codes ".xls"
    ∷ []

unfoldable pub allowed_extensions : List Text
allowed_extensions =
    codes ".pdf"
    ∷ codes ".docx"
    ∷ codes ".xlsx"
    ∷ codes ".png"
    ∷ codes ".jpg"
    ∷ codes ".jpeg"
    ∷ codes ".tif"
    ∷ codes ".tiff"
    ∷ codes ".webp"
    ∷ codes ".zip"
    ∷ []

abbrev pub in_texts : List Text → Text → Bool
in_texts ts t = any (λ x. text_eq x t) ts

unfoldable pub filename_extension : Text → Result Text
unfolding path_suffix split_slash
filename_extension filename =
    let name = path_name (slashes filename) in
    let suffix = lower (path_suffix name) in
    raise_if
      (not (text_eq name filename)
        || (is_empty name
            || (text_eq name (codes ".")
                || (text_eq name (codes "..")
                    || (ltb 0 (count_of 47 filename) || ltb 0 (count_of 92 filename))))))
      request_validation_failed
    >> (raise_if (in_texts blocked_extensions suffix) document_type_blocked
        >> (raise_if (not (in_texts allowed_extensions suffix)) document_type_blocked >> ok suffix))

abbrev pub max_archive_size_bytes : ℕ
max_archive_size_bytes = 104_857_600

abbrev pub max_archive_files : ℕ
max_archive_files = 1000

abbrev pub max_archive_depth : ℕ
max_archive_depth = 3

-- An entry of an archive: its name and its uncompressed size.
abbrev pub ZipEntry : Type 0
ZipEntry = Text × ℕ

abbrev pub archive_depth : Text → ℕ
archive_depth name = count_of 47 name + count_of 92 name

-- The checks of one entry, with the total size up to and with it.
unfoldable pub entry_blocked : ℕ → ZipEntry → Bool
entry_blocked total (name, size) =
    starts_with (codes "/") name
    || (in_texts (path_parts name) (codes "..")
        || (ltb max_archive_depth (archive_depth name)
            || (ltb max_archive_size_bytes total
                || in_texts blocked_extensions (lower (path_suffix name)))))

unfoldable pub check_entries : ℕ → List ZipEntry → Result (Unit {0})
check_entries total [] = ok tt
check_entries total (e ∷ es) =
    raise_if (entry_blocked (total + e.1) e) document_type_blocked >> check_entries (total + e.1) es

abbrev docx_type : Text
docx_type = codes "application/vnd.openxmlformats-officedocument.wordprocessingml.document"

abbrev xlsx_type : Text
xlsx_type = codes "application/vnd.openxmlformats-officedocument.spreadsheetml.sheet"

abbrev zip_type : List ZipEntry → Text × DocumentMimeCategory
zip_type es =
    if any (λ (e : ZipEntry). starts_with (codes "word/") (slashes e.0)) es
    then (docx_type, docx)
    else if any (λ (e : ZipEntry). starts_with (codes "xl/") (slashes e.0)) es
    then (xlsx_type, xlsx)
    else (codes "application/zip", archive)

-- `_sniff_zip` on the listing that `zipfile` gives, or on its BadZipFile.
unfoldable pub sniff_zip : Option (List ZipEntry) → Result (Text × DocumentMimeCategory)
sniff_zip none = err (stable document_type_blocked)
sniff_zip (some es) =
    raise_if (ltb max_archive_files (length es)) document_type_blocked
    >> (check_entries 0 es >> ok (zip_type es))

-- `payload[8:12]`
abbrev bytes_from_eight : Text → Text
bytes_from_eight (_ ∷ _ ∷ _ ∷ _ ∷ _ ∷ _ ∷ _ ∷ _ ∷ t) = t
bytes_from_eight _ = []

unfoldable pub sniff_content :
    (Text → Option (List ZipEntry)) → Text → Result (Text × DocumentMimeCategory)
unfolding sniff_zip starts_with
sniff_content unzip payload =
    if starts_with (codes "%PDF") payload
    then ok (codes "application/pdf", pdf)
    else if starts_with (137 ∷ codes "PNG") payload
    then ok (codes "image/png", image)
    else if starts_with (255 ∷ 216 ∷ 255 ∷ []) payload
    then ok (codes "image/jpeg", image)
    else if starts_with (codes "RIFF") payload
        && starts_with (codes "WEBP") (bytes_from_eight payload)
    then ok (codes "image/webp", image)
    else if starts_with (codes "II*" ++ 0 ∷ []) payload
        || starts_with (codes "MM" ++ 0 ∷ 42 ∷ []) payload
    then ok (codes "image/tiff", image)
    else if starts_with (codes "PK" ++ 3 ∷ 4 ∷ []) payload
    then sniff_zip (unzip payload)
    else ok (codes "application/octet-stream", unknown)
