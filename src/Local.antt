-- ===== src/Local.antt =====
-- internal/util.go: what the drivers ask of local files. `Files` is the operating system and the hash
-- functions of the standard library.
use pan_client.Base.{
  ℕ, ◌==◌, Bool, if◌then◌else◌, [], ◌∷◌, Text, codes, text_eq, slash, reverse, Result, ok, err,
}
use pan_client.Errors.{GoError}
use pan_client.Gcid.File.{hex}
use pan_client.Drive.Reader.{FileStat}

-- `stat` gives the name of the file too; `read` opens a file and copies its bytes; `type_by_extension`
-- is that of package mime, and gives the empty text for an extension that it does not know.
pub record Files (W D : Type 0) : Type 0 where
  pub stat : Text → W → Result (GoError D) (Text × FileStat)
  pub read : Text → W → Result (GoError D) Text
  pub seeks : W → Bool
  pub seek : W → ℕ → ℕ
  pub remove : Text → W → W
  pub md5 : Text → Text
  pub sha1 : Text → Text
  pub type_by_extension : Text → Text

abbrev hex_of : {D : Type 0} → (Text → Text) → Result (GoError D) Text → Result (GoError D) Text
hex_of hash (err e) = err e
hex_of hash (ok bytes) = ok (hex (hash bytes))

-- The part behind the last dot of the reversed name, with the dot, if a dot comes before a slash.
ext_from : Text → Text → Text
ext_from [] out = []
ext_from (b ∷ s) out =
    let rest = ext_from s (b ∷ out) in
    if b == slash then [] else (if b == b'.' then b ∷ out else rest)

-- `path.Ext`.
unfoldable pub ext : Text → Text
unfolding ext_from
ext name = ext_from (reverse name) []

abbrev or_octets : Text → Text
or_octets [] = codes "application/octet-stream"
or_octets (b ∷ s) = b ∷ s

module _ {W D : Type 0} (files : Files W D) where
  unfoldable pub get_file_md5 : Text → W → Result (GoError D) Text
  unfolding hex
  get_file_md5 filename w = hex_of files.md5 (files.read filename w)

  unfoldable pub get_file_sha1 : Text → W → Result (GoError D) Text
  unfolding hex
  get_file_sha1 filename w = hex_of files.sha1 (files.read filename w)

  unfoldable pub get_mime_type : Text → Text
  unfolding ext
  get_mime_type name =
      if text_eq (ext name) (codes ".apk")
      then codes "application/vnd.android.package-archive"
      else or_octets (files.type_by_extension (ext name))
