-- ===== src/Session/Deletion.antt =====
-- Which stored files outlast an upload, and a DELE.
use in_memory_object_storage.Common.{
  ◌≡◌, ◌≢◌, ◌∙◌, refl, ap, inl, inr, false, [], ◌∷◌, ◌++◌, none, some, arith, ok, length,
  length-append, Option-cases, Bool-cases,
}
use in_memory_object_storage.Common.Text.{Bytes, codes, text_eq, text_eq_iff, text_eq_refl}
use in_memory_object_storage.Common.Dict.{
  lookup, assign, erase, lookup-assign, lookup-erase, Nodup-assign,
}
use in_memory_object_storage.MemoryFs.{File, IsStore, file_not_found}
use in_memory_object_storage.MemoryFs.Refinement.{add_new-eq, add_taken-eq, remove_miss-eq}
use in_memory_object_storage.UserDatabase.{User}
use in_memory_object_storage.Protocol.FtpRequest.{FtpParser}
use in_memory_object_storage.Protocol.FtpResponse.{with_text, serialize, action_not_taken}
use in_memory_object_storage.Session.{Session, reply}
use in_memory_object_storage.Session.Transfer.{save_file}
use in_memory_object_storage.Session.Ftp.{handle_dele, report_deleted}
use in_memory_object_storage.Session.Http.{finish_put}

-- A stored file is unchanged by the end of any HTTP upload, and by the saving of any FTP upload,
-- to whatever path.
pub Holds-uploads :
    (path other : Bytes) (old new : File) (s : Session)
    → lookup path s.filesystem.fs ≡ some old
    → (lookup path (finish_put other (some new) s).filesystem.fs ≡ some old)
      × (lookup path (save_file new other s).filesystem.fs ≡ some old)
unfolding finish_put save_file
Holds-uploads path other old new s h = elim (Option-cases (lookup other s.filesystem.fs)) [
  | inl e ↦ rw (add_new-eq s.filesystem other new e) (
    ground (arith, lookup-assign other path new s.filesystem.fs, text_eq_iff other path, h),
    ground (arith, lookup-assign other path new s.filesystem.fs, text_eq_iff other path, h),
  )
  | inr (there, e) ↦ rw (add_taken-eq s.filesystem other new there e) (h, h)
]

handle_dele-missing :
    (command name : Bytes) (user : User) (parser : FtpParser) (s : Session)
    → parser.tokens ≡ command ∷ name ∷ []
    → s.logged_in_user ≡ some user
    → IsStore s.filesystem
    → lookup name s.filesystem.fs ≡ none
    → handle_dele parser s
      ≡ ok (
          report_deleted file_not_found
            (record s { filesystem = record { fs = erase name s.filesystem.fs } }))
unfolding handle_dele
handle_dele-missing command name user parser s w l st n =
    rw (w, l, remove_miss-eq s.filesystem name st n)

append-ne : (a b : Bytes) → a ≢ [] → text_eq b (a ++ b) ≡ false
append-ne [] b n = absurd (n refl)
append-ne (c ∷ a) b n = elim (Bool-cases (text_eq b (c ∷ (a ++ b)))) [
  | inr e ↦ e
  | inl e ↦
      absurd (omega (arith, length-append a b, ap length ((text_eq_iff b (c ∷ (a ++ b))).0 e)))
]

module _ (name : Bytes) (file : File) (s : Session) where
  abbrev stored_path : Bytes
  stored_path = s.current_working_dir ++ name

  save_file-stored :
      lookup stored_path s.filesystem.fs ≡ none
      → (save_file file stored_path s).filesystem
        ≡ record { fs = assign stored_path file s.filesystem.fs }
  unfolding save_file
  save_file-stored m = rw (add_new-eq s.filesystem stored_path file m) refl

  save_file-user : (save_file file stored_path s).logged_in_user ≡ s.logged_in_user
  unfolding save_file
  save_file-user = ground arith

  -- With distinct stored paths, a working directory that is not empty and neither its path nor
  -- the bare name stored, a file that FTP saved under the working directory followed by the name
  -- outlasts a DELE of the name by a logged-in user, which replies that it could not delete the
  -- file.
  pub dele-save_file :
      (command : Bytes) (user : User) (parser : FtpParser)
      → parser.tokens ≡ command ∷ name ∷ []
      → s.logged_in_user ≡ some user
      → IsStore s.filesystem
      → s.current_working_dir ≢ []
      → lookup (s.current_working_dir ++ name) s.filesystem.fs ≡ none
      → lookup name s.filesystem.fs ≡ none
      → let s₁ = save_file file (s.current_working_dir ++ name) s in
        (s' : Session) × (handle_dele parser s₁ ≡ ok s')
        × (s'.posted
            ≡ s₁.posted
              ++ serialize (with_text action_not_taken (codes "Unable to delete file")) ∷ [])
        × (lookup (s.current_working_dir ++ name) s'.filesystem.fs ≡ some file)
  unfolding report_deleted reply
  dele-save_file command user parser w l st d m n =
      let fs = s.filesystem.fs in
      let s₁ = save_file file stored_path s in
      let stored = save_file-stored m in
      let other = append-ne s.current_working_dir name d in
      let absent : lookup name s₁.filesystem.fs ≡ none = rw stored (
        ground (
          arith,
          lookup-assign stored_path name file fs,
          text_eq_iff stored_path name,
          text_eq_iff name stored_path,
          other,
          n,
        )) in
      let store : IsStore s₁.filesystem = rw stored (Nodup-assign stored_path file fs st) in
      let there : lookup stored_path s₁.filesystem.fs ≡ some file =
        rw stored (
          ground
            (arith, lookup-assign stored_path stored_path file fs, text_eq_refl stored_path)) in
      (
        _,
        handle_dele-missing command name user parser s₁ w (save_file-user ∙ l) store absent,
        refl,
        lookup-erase name stored_path s₁.filesystem.fs ∙ rw other there,
      )
