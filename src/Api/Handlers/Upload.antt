-- ===== src/Api/Handlers/Upload.antt =====
-- Where an upload is written.
use matrisea.Common.{
  Str, text, str_eq, str_eq_iff, true, false, ◌≡◌, ◌⊎◌, inl, inr, refl, sym, ap, ◌∙◌, some, List,
  [], ◌∷◌, ◌++◌, ok, Action, arith, Bool-cases,
}
use matrisea.Go.Strings.Split.{Lacks, Lacks-append}
use matrisea.Go.Path.{ext, slash}
use matrisea.Go.Path.Join.{IsFolder, IsName, join-name, IsFolder-child}
use matrisea.Vmm.Host.{Vmm, Host, World, on_files}
use matrisea.Api.Env.{cf_prefix}
use matrisea.Api.Handlers.{
  Response, error_body, bad_request, is_allowed, respond, saved_answer, upload_file,
  upload_image_file, upload_device_file,
}

abbrev pub unsupported : Response
unsupported = bad_request (error_body (text "Unsupported file formats"))

-- The extension of the name is allowed, and that of another name is not: they differ.
differs :
    (allowed : List Str) (filename other : Str)
    → is_allowed (ext filename) allowed ≡ true
    → is_allowed (ext other) allowed ≡ false
    → str_eq filename other ≡ false
differs allowed filename other h k = elim (Bool-cases (str_eq filename other)) [
  | inl same ↦
      let e : filename ≡ other = (str_eq_iff filename other).0 same in
      let both : true ≡ false = sym h ∙ (ap (λ (s : Str). is_allowed (ext s) allowed) e ∙ k) in
      absurd (cc)
  | inr apart ↦ apart
]

-- None of the short names has an extension of the list.
pub record SkipsDots (allowed : List Str) : Type 0 where
  pub on_empty : is_allowed (ext []) allowed ≡ false
  pub on_dot : is_allowed (ext (text ".")) allowed ≡ false
  pub on_dots : is_allowed (ext (text "..")) allowed ≡ false

images-SkipsDots : SkipsDots (text ".zip" ∷ text ".tar" ∷ text ".gz" ∷ [])
unfolding ext is_allowed str_eq text
images-SkipsDots = record { on_empty = refl; on_dot = refl; on_dots = refl }

apks-SkipsDots : SkipsDots (text ".apk" ∷ [])
unfolding ext is_allowed str_eq text
apks-SkipsDots = record { on_empty = refl; on_dot = refl; on_dots = refl }

container-IsName : (name : Str) → Lacks b'/' name → IsName (cf_prefix ++ name)
unfolding str_eq text
container-IsName name h = record {
  plain = Lacks-append b'/' cf_prefix name (ground arith) h;
  some_bytes = refl;
  no_dot = refl;
  no_dots = refl;
}

module _ (H : Host) (v : Vmm) (save : Str → Action H.files.State (Unit {0})) where
  -- The request is refused and nothing happens, or the file is saved under the path, and the answer
  -- says what came of it.
  abbrev pub SavedAs : Str → Action (World H) Response → World H → Type 0
  SavedAs path m w =
      (m w ≡ (ok unsupported, w))
      ⊎ (m w ≡ respond H v (saved_answer H v) (on_files H (save path)) w)

  upload_file-SavedAs :
      (allowed : List Str) (folder filename : Str) (w : World H)
      → SkipsDots allowed
      → IsFolder folder
      → Lacks b'/' filename
      → SavedAs
          (folder ++ (slash ++ filename))
          (upload_file H v save (some filename) allowed folder)
          w
  unfolding upload_file
  upload_file-SavedAs allowed folder filename w skips f plain =
      elim (Bool-cases (is_allowed (ext filename) allowed)) [
        | inl fits ↦
            let n : IsName filename = record {
              plain = plain;
              some_bytes = differs allowed filename [] fits skips.on_empty;
              no_dot = differs allowed filename (text ".") fits skips.on_dot;
              no_dots = differs allowed filename (text "..") fits skips.on_dots;
            } in
            inr (rw fits (rw (join-name folder filename f n) refl))
        | inr other ↦ inl (rw other refl)
      ]

  -- With folders of the manager in their shortest form that are neither the root nor the current
  -- folder, and with a device's name and a file's name that hold no slash, an uploaded image is
  -- saved directly in the upload folder and an uploaded package directly in the device's folder,
  -- each under the file's name, or the request is refused and nothing happens.
  pub upload-SavedAs :
      (name filename : Str) (w : World H)
      → IsFolder v.upload_dir
      → IsFolder v.devices_dir
      → Lacks b'/' name
      → Lacks b'/' filename
      → SavedAs (v.upload_dir ++ (slash ++ filename)) (upload_image_file H v save (some filename)) w
        × SavedAs
            (v.devices_dir ++ (slash ++ (cf_prefix ++ name)) ++ (slash ++ filename))
            (upload_device_file H v save name (some filename))
            w
  unfolding upload_image_file upload_device_file
  upload-SavedAs name filename w u d plain_name plain = (
    upload_file-SavedAs _ v.upload_dir filename w images-SkipsDots u plain,
    rw (join-name v.devices_dir (cf_prefix ++ name) d (container-IsName name plain_name)) (
        upload_file-SavedAs _ _ filename w apks-SkipsDots
          (IsFolder-child v.devices_dir (cf_prefix ++ name) d (container-IsName name plain_name))
          plain),
  )
