-- ===== src/ExecPython/Artifacts.antt =====
-- What the job server (sandbox/exec-python/server.py) gives back of a job that came to its end.
use meetings.Prelude.{
  ℕ, String, ◌==◌, eq_iff, ◌≡◌, ◌≢◌, ◌≤◌, refl, eq_refl, ap, ◌∙◌, Bool, true, false, not, ◌&&◌,
  Option, none, some, List, [], ◌∷◌, map, filter, elem, arith, Bool-cases, Option-cases, inl, inr,
  ltb, if◌then◌else◌,
}
use meetings.Prelude.Order.{elem-sorted}
use meetings.Dict.{Dict, get, put, has_key, get-put, string_eq, HasUniqueKeys}
use meetings.Text.{is_some}
use meetings.ExecPython.Bounded.{IsCut, take_text-IsCut}
use meetings.ExecPython.{
  Entry, file, folder, Directory, Workspace, Result, job, loaded, Python, finished, Request, bytes,
  result_reply, max_body_bytes, result_name, is_product, read_file, produced, unlink_stale,
  write_inputs, write_result, result_of, record_result, collect, with_artifacts, reply_loaded,
  reply_after, run_body, run_length, do_post,
}

-- Each text as it is sent, if there is one.
abbrev pub encoded : Python → Option String → Option String
encoded python none = none
encoded python (some raw) = some (python.b64encode raw)

unlisted :
    (name : String) (p : String × Entry → Bool) (out : Directory)
    → has_key name out ≡ false
    → elem name (map (λ e. e.0) (filter p out)) ≡ false
unfolding has_key
unlisted name p [] h = refl
unlisted name p ((n, e) ∷ out) h =
    ground (arith, h, eq_iff n name, eq_iff name n, unlisted name p out)

-- The files that are reported are those that can be read, but for the result itself.
listed :
    (name : String) (out : Directory)
    → HasUniqueKeys out
    → elem name (map (λ e. e.0) (filter is_product out))
      ≡ (is_some (read_file name out) && not (name == result_name))
unfolding read_file get
listed name [] u = refl
listed name ((n, file raw) ∷ out) u = elim (Bool-cases (n == name)) [
  | inl y ↦ ground (arith, y, eq_iff n name, eq_iff name n, unlisted n is_product out u.0)
  | inr f ↦ ground (arith, f, eq_iff n name, eq_iff name n, listed name out u.1)
]
listed name ((n, folder) ∷ out) u = elim (Bool-cases (n == name)) [
  | inl y ↦ ground (arith, y, eq_iff n name, eq_iff name n, unlisted n is_product out u.0)
  | inr f ↦ ground (arith, f, listed name out u.1)
]

-- The result's file stands beside the others, which stay as they are.
write_result-put :
    (text : String) (out : Directory)
    → get result_name out ≢ some folder
    → write_result text out ≡ put result_name (file text) out
unfolding write_result
write_result-put text out free = written (get result_name out) refl
  where
    written :
        (o : Option Entry)
        → get result_name out ≡ o
        → write_result text out ≡ put result_name (file text) out
    written none e = rw (write_result, e) refl
    written (some (file raw)) e = rw (write_result, e) refl
    written (some folder) e = absurd (free e)

read_file-put :
    (name n text : String) (out : Directory)
    → read_file name (put n (file text) out) ≡ (if n == name then some text else read_file name out)
unfolding read_file
read_file-put name n text out = elim (Bool-cases (n == name)) [
  | inl y ↦ rw (read_file, get-put n name (file text) out, y) refl
  | inr f ↦ rw (read_file, get-put n name (file text) out, f) refl
]

abbrev pair_of : Bool → Directory → Bool × Directory
pair_of b out = (b, out)

-- What a result says of a snippet that came to its end: whether it raised and what, the first 20000
-- characters of each output, and the names of the files that can be read in its directory.
pub record IsReport (error : Option String) (stdout stderr : String) (out : Directory) (r : Result)
    : Type 0 where
  pub succeeded : r.is_ok ≡ not (is_some error)
  pub told : r.error ≡ error
  pub output : IsCut 20000 stdout r.stdout
  pub errors : IsCut 20000 stderr r.stderr
  pub names :
      (name : String)
      → elem name r.files ≡ (is_some (read_file name out) && not (name == result_name))

result_of-IsReport :
    (python : Python) (error : Option String) (stdout stderr : String) (out : Directory)
    → HasUniqueKeys out
    → IsReport error stdout stderr out (result_of python error stdout stderr out)
unfolding result_of produced
result_of-IsReport python error stdout stderr out u = record {
  succeeded = refl;
  told = refl;
  output = take_text-IsCut 20000 stdout;
  errors = take_text-IsCut 20000 stderr;
  names = λ name. elem-sorted name (map (λ e. e.0) (filter is_product out)) ∙ listed name out u;
}

-- Where every name can be read, the artifacts are the contents of the files that are named.
module _ (python : Python) where
  collect-some :
      (names : List String) (out : Directory) (artifacts : Dict String String)
      → ((n : String) → elem n names ≡ true → (raw : String) × (read_file n out ≡ some raw))
      → (d : Dict String String) × (collect python names out artifacts ≡ some d)
        × ((m : String)
            → get m d
              ≡ (if elem m names then encoded python (read_file m out) else get m artifacts))
  unfolding collect
  collect-some [] out artifacts h = (artifacts, refl, λ m. refl)
  collect-some (n ∷ names) out artifacts h =
      let (raw, e) = h n (ground (arith, eq_refl n)) in
      let (d, found, has) =
        collect-some names out (put n (python.b64encode raw) artifacts)
          (λ k m. h k (ground (arith, m))) in
      (
        d,
        rw (collect, e) found,
        λ m.
            ground (
              arith,
              e,
              has m,
              eq_iff m n,
              eq_iff n m,
              get-put n m (python.b64encode raw) artifacts,
            ),
      )

  -- The names that are reported can be read, also beside the result's file.
  produced_read :
      (text : String) (out : Directory)
      → HasUniqueKeys out
      → (n : String) → elem n (produced out) ≡ true
      → (raw : String) × (read_file n (put result_name (file text) out) ≡ some raw)
  unfolding produced
  produced_read text out u n m = elim (Option-cases (read_file n out)) [
    | inl e ↦ absurd (
        ground
          (arith, m, e, elem-sorted n (map (λ x. x.0) (filter is_product out)), listed n out u))
    | inr (raw, e) ↦ (
      raw,
      ground (
        arith,
        m,
        e,
        elem-sorted n (map (λ x. x.0) (filter is_product out)),
        listed n out u,
        eq_iff n result_name,
        eq_iff result_name n,
        read_file-put n result_name text out,
      ),
    )
  ]

  with_collected :
      (r : Result) (o : Option (Dict String String)) (d : Dict String String)
      → o ≡ some d
      → with_artifacts python r o ≡ some (result_reply r d)
  unfolding with_artifacts
  with_collected r none d e = absurd (cc)
  with_collected r (some x) d e = ground (arith, e)

  reply_read :
      (text : String) (out : Directory) (r : Result) (d : Dict String String)
      → read_file result_name out ≡ some text
      → python.loads text ≡ loaded r
      → collect python r.files out [] ≡ some d
      → reply_after python (false, out) ≡ some (result_reply r d)
  unfolding reply_after reply_loaded
  reply_read text out r d e l c =
      rw (reply_after, e, reply_loaded, l) (with_collected r (collect python r.files out []) d c)

  do_post_job :
      (n : ℕ) (code : String) (inputs : Dict String String) (w : Workspace)
      → n ≤ max_body_bytes
      → (do_post python
          (record { path = "/run"; content_length = bytes n; body = job code inputs })
          w).0
        ≡ reply_after python (
            record_result python (
              python.snippet code
                (write_inputs inputs (put "job.json" (python.dumps_job code inputs) w.input))
                (unlink_stale w.out)))
  unfolding do_post run_length run_body
  do_post_job n code inputs w small = elim (Bool-cases (ltb max_body_bytes n)) [
    | inl y ↦ absurd (ground (arith, y, small))
    | inr f ↦ rw f refl
  ]

  get_artifact :
      (name text : String) (out : Directory) (d : Dict String String)
      → HasUniqueKeys out
      → get name d ≡ (
          if elem name (produced out)
          then encoded python (read_file name (put result_name (file text) out))
          else none)
      → get name d ≡ (if name == result_name then none else encoded python (read_file name out))
  unfolding produced
  get_artifact name text out d u e = elim (Option-cases (read_file name out)) [
    | inl m ↦
        ground (
          arith,
          e,
          m,
          elem-sorted name (map (λ x. x.0) (filter is_product out)),
          listed name out u,
        )
    | inr (raw, m) ↦ ground (
      arith,
      e,
      m,
      elem-sorted name (map (λ x. x.0) (filter is_product out)),
      listed name out u,
      eq_iff name result_name,
      eq_iff result_name name,
      read_file-put name result_name text out,
    )
  ]

  -- A job of an acceptable size whose snippet comes to its end, leaving no folder in the result's
  -- place, and whose result is read as it was written: the reply reports whether the snippet raised
  -- and what, the output and the errors cut to their first 20000 characters, and the names of the
  -- files that the snippet's directory holds; its artifacts are the contents of these files, by name,
  -- the result's own file excepted.
  pub do_post-finished :
      (n : ℕ) (code : String) (inputs : Dict String String) (w : Workspace) (error : Option String)
      (stdout stderr : String) (out : Directory)
      → n ≤ max_body_bytes
      → python.loads (python.dumps (result_of python error stdout stderr out))
        ≡ loaded (result_of python error stdout stderr out)
      → python.snippet code
          (write_inputs inputs (put "job.json" (python.dumps_job code inputs) w.input))
          (unlink_stale w.out)
        ≡ finished error stdout stderr out
      → get result_name out ≢ some folder
      → HasUniqueKeys out
      → let request : Request = record {
        path = "/run";
        content_length = bytes n;
        body = job code inputs;
      } in
        (r : Result) × (d : Dict String String) × ((do_post python request w).0
          ≡ some (result_reply r d))
        × IsReport error stdout stderr out r
        × ((name : String)
            → get name d
              ≡ (if name == result_name then none else encoded python (read_file name out)))
  unfolding result_of record_result get
  do_post-finished n code inputs w error stdout stderr out small law ends free u =
      let r = result_of python error stdout stderr out in
      let text = python.dumps r in
      let kept = put result_name (file text) out in
      let (d, found, has) = collect-some (produced out) kept [] (produced_read text out u) in
      let ended : record_result python (finished error stdout stderr out) ≡ (false, kept) =
        ap (pair_of false) (write_result-put text out free) in
      (
        r,
        d,
        do_post_job n code inputs w small
            ∙ (ap (λ x. reply_after python (record_result python x)) ends
                ∙ (ap (reply_after python) ended
                    ∙ reply_read text kept r d
                        (ground (
                          arith,
                          read_file-put result_name result_name text out,
                          eq_refl result_name,
                        ))
                        law found)),
        result_of-IsReport python error stdout stderr out u,
        λ name. get_artifact name text out d u (has name),
      )
