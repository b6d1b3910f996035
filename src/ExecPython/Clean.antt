-- ===== src/ExecPython/Clean.antt =====
-- What a job of the job server (sandbox/exec-python/server.py) sees of the jobs before it.
use meetings.Prelude.{◌≡◌, refl, String, ap, sym, ◌∙◌, [], ◌∷◌}
use meetings.ExecPython.{Directory, file, folder, Workspace, Python, unlink_stale}

-- A directory of folders, with files of earlier jobs anywhere among them.
pub data IsLittered : Directory → Directory → Type 0 where
  empty : IsLittered [] []
  has_folder :
      {name : String} {folders out : Directory}
      → IsLittered folders out
      → IsLittered ((name, folder) ∷ folders) ((name, folder) ∷ out)
  has_file :
      {name raw : String} {folders out : Directory}
      → IsLittered folders out
      → IsLittered folders ((name, file raw) ∷ out)

unlink_stale-IsLittered :
    {folders out : Directory} → IsLittered folders out → unlink_stale out ≡ folders
unfolding unlink_stale
unlink_stale-IsLittered empty = refl
unlink_stale-IsLittered (has_folder {name} l) =
    ap (λ d. (name, folder) ∷ d) (unlink_stale-IsLittered l)
unlink_stale-IsLittered (has_file l) = unlink_stale-IsLittered l

module _ (python : Python) (w v : Workspace) (inputs : w.input ≡ v.input) (clean : Directory)
    (in_w : IsLittered clean w.out) (in_v : IsLittered clean v.out) where
  folders : unlink_stale w.out ≡ unlink_stale v.out
  folders = unlink_stale-IsLittered in_w ∙ sym (unlink_stale-IsLittered in_v)
