-- ===== src/Release/Guarantees/Directory.antt =====
-- What a verified proof directory guarantees (scripts/verify_release.py).
use agent_delegation_network.Json.{Fields, get, obj, str}
use agent_delegation_network.Prelude.{
  >>-eq-ok, >>=-eq-ok, Result, String, ap, ok, ok-injective, raised, refl, subst, sym, ◌>>◌, ◌∙◌,
  ◌≡◌,
}
use agent_delegation_network.Protocol.Messages.{expect_dict}
use agent_delegation_network.Release.Attestation.{check_attestation}
use agent_delegation_network.Release.Directory.{release_result, verify_release_dir}
use agent_delegation_network.Release.Files.{
  Files, compute_proof_input_digest, proof_input_files, read_json, require_files,
  required_proof_files,
}
use agent_delegation_network.Release.Guarantees.Attestation.{Attested, check_attestation_ok}
use agent_delegation_network.Release.Guarantees.Inputs.{
  Digests, Replayed, Signed, check_behaviour_ok, check_digests_ok, verify_manifest_signature_sound,
}
use agent_delegation_network.Release.Inputs.{
  Documents, check_behaviour, check_digests, check_manifest_shape, input_result, read_documents,
  verify_documents, verify_release_inputs,
}
use agent_delegation_network.Release.Manifest.{manifest_body, verify_manifest_signature}
use agent_delegation_network.Release.Platform.{Platform, Settings, pinned_key_of, repository_of}
use agent_delegation_network.Verifier.Guarantees.{expect_dict-eq-ok}

-- The inputs are one release: the manifest says so under its own digest and the pinned key, the
-- documents have the digests that it names, and they show that replays are rejected.
pub record InputsVerified (p : Platform) (settings : Settings) (files : Files) : Type 0 where
  pub docs : Documents
  pub docs_read : read_documents p files ≡ ok docs
  pub manifest : Fields
  pub manifest_is : docs.manifest ≡ obj manifest
  pub shape : check_manifest_shape p manifest ≡ ok tt
  pub digests : Digests p manifest docs
  pub signature_doc : Fields
  pub signature_is : docs.signature ≡ obj signature_doc
  pub signed : Signed p (pinned_key_of settings) manifest signature_doc (manifest_body manifest)
  pub replayed : Replayed p manifest docs
  pub digest' : String
  pub digest_is : compute_proof_input_digest p files ≡ ok digest'

pub same_dict : (fs gs : Fields) → obj fs ≡ obj gs → fs ≡ gs
same_dict fs gs h = cc

module _ (p : Platform) (settings : Settings) (files : Files) where
  verify_documents_ok :
      (docs : Documents)
      → read_documents p files ≡ ok docs
      → (out : Fields) → verify_documents p settings files docs ≡ ok out
      → (v : InputsVerified p settings files) × (v.docs ≡ docs)
        × (input_result p v.manifest v.digest' ≡ out)
  unfolding verify_documents
  verify_documents_ok docs docs_read out h =
      let (manifest, is_manifest, h1) = >>=-eq-ok (expect_dict docs.manifest) _ h in
      let (shape, h2) = >>-eq-ok (check_manifest_shape p manifest) _ h1 in
      let (digests, h3) = >>-eq-ok (check_digests p manifest docs) _ h2 in
      let (signature_doc, is_signature, h4) = >>=-eq-ok (expect_dict docs.signature) _ h3 in
      let (signed, h5) =
        >>-eq-ok (verify_manifest_signature p settings manifest signature_doc) _ h4 in
      let (replayed, h6) = >>-eq-ok (check_behaviour p manifest docs) _ h5 in
      let (d, is_digest, h7) = >>=-eq-ok (compute_proof_input_digest p files) _ h6 in
      (
        record {
          docs = docs;
          docs_read = docs_read;
          manifest = manifest;
          manifest_is = expect_dict-eq-ok docs.manifest manifest is_manifest;
          shape = shape;
          digests = check_digests_ok p manifest docs digests;
          signature_doc = signature_doc;
          signature_is = expect_dict-eq-ok docs.signature signature_doc is_signature;
          signed = verify_manifest_signature_sound p settings manifest signature_doc signed;
          replayed = check_behaviour_ok p manifest docs replayed;
          digest' = d;
          digest_is = is_digest;
        },
        refl,
        ok-injective (input_result p manifest d) out h7,
      )

  -- Proof inputs are accepted only if they are one release: the manifest has its own digest and the
  -- signature of the pinned key, the documents have the digests that it names, and the replay proof
  -- shows that replays are rejected.
  pub verify_release_inputs_sound :
      (out : Fields)
      → verify_release_inputs p settings files ≡ ok out
      → (v : InputsVerified p settings files) × (input_result p v.manifest v.digest' ≡ out)
  unfolding verify_release_inputs
  verify_release_inputs_sound out h =
      let (present, h1) = >>-eq-ok (require_files files proof_input_files) _ h in
      let (docs, docs_read, h2) = >>=-eq-ok (read_documents p files) _ h1 in
      let (v, same, e) = verify_documents_ok docs docs_read out h2 in (v, e)

  -- What the verdict on a whole directory stands for: verified inputs, and an attestation of them.
  pub record ReleaseVerified (out : Fields) : Type 0 where
    pub inputs : InputsVerified p settings files
    pub ci : Fields
    pub ci_read : read_json p files "ci_release_sha.json" ≡ ok (obj ci)
    pub attested :
        Attested p (repository_of settings) inputs.digest' (get "build_commit" inputs.manifest) ci
    pub verdict : release_result p (input_result p inputs.manifest inputs.digest') ≡ out

  pub read_documents_manifest :
      (docs : Documents)
      → read_documents p files ≡ ok docs
      → read_json p files "deployment_manifest.json" ≡ ok docs.manifest
  unfolding read_documents
  read_documents_manifest docs h =
      let (m, is_m, h1) = >>=-eq-ok (read_json p files "deployment_manifest.json") _ h in
      let (s, is_s, h2) = >>=-eq-ok (read_json p files "deployment_manifest.sig") _ h1 in
      let (r, is_r, h3) = >>=-eq-ok (read_json p files "registration_response.json") _ h2 in
      let (i, is_i, h4) = >>=-eq-ok (read_json p files "invocation_receipt.json") _ h3 in
      let (e, is_e, h5) = >>=-eq-ok (read_json p files "t3n_evidence.json") _ h4 in
      let (t, is_t, h6) = >>=-eq-ok (read_json p files "replay_restart_proof.json") _ h5 in
      is_m ∙ ap (λ r. elim r [ raised x ↦ raised x | ok d ↦ ok (d.manifest) ]) h6

  finish :
      (out : Fields) (v : InputsVerified p settings files) (manifest : Fields)
      → manifest ≡ v.manifest
      → (input : Fields) → input_result p v.manifest v.digest' ≡ input
      → (ci : Fields) → read_json p files "ci_release_sha.json" ≡ ok (obj ci)
      → (check_attestation p
            (repository_of settings)
            (get "proof_input_digest" input)
            (get "build_commit" manifest)
            ci
          >> ok (release_result p input))
        ≡ ok out
      → ReleaseVerified out
  unfolding get
  finish out v manifest same input e ci ci_read h =
      let check : Fields → Fields → Result Fields = λ i m.
        check_attestation p (repository_of settings) (get "proof_input_digest" i)
          (get "build_commit" m) ci
        >> ok (release_result p i) in
      let h' =
        subst (λ i. check i v.manifest ≡ ok out) (sym e)
          (subst (λ m. check input m ≡ ok out) same h) in
      let (attested, done) =
        >>-eq-ok
          (check_attestation p (repository_of settings) (str v.digest')
            (get "build_commit" v.manifest) ci)
          (ok (release_result p (input_result p v.manifest v.digest'))) h' in
      record {
        inputs = v;
        ci = ci;
        ci_read = ci_read;
        attested =
            check_attestation_ok p (repository_of settings) v.digest'
              (get "build_commit" v.manifest) ci attested;
        verdict = ok-injective _ out done;
      }

  -- A proof directory is accepted only if its inputs are verified, and the CI attestation in it is of
  -- the expected repository, of the digest of these inputs and of the commit in the manifest, whose
  -- run and whose tests have succeeded.
  pub verify_release_dir_sound :
      (out : Fields) → verify_release_dir p settings files ≡ ok out → ReleaseVerified out
  unfolding verify_release_dir
  verify_release_dir_sound out h =
      let (present, h1) = >>-eq-ok (require_files files required_proof_files) _ h in
      let (input, accepted_input, h2) = >>=-eq-ok (verify_release_inputs p settings files) _ h1 in
      let (manifest_json, manifest_read, h3) =
        >>=-eq-ok (read_json p files "deployment_manifest.json") _ h2 in
      let (ci_json, ci_read, h4) = >>=-eq-ok (read_json p files "ci_release_sha.json") _ h3 in
      let (ci, is_ci, h5) = >>=-eq-ok (expect_dict ci_json) _ h4 in
      let (manifest, is_manifest, h6) = >>=-eq-ok (expect_dict manifest_json) _ h5 in
      let (v, e) = verify_release_inputs_sound input accepted_input in
      finish out v manifest
        (same_dict manifest v.manifest (
          sym (expect_dict-eq-ok manifest_json manifest is_manifest)
          ∙ (ok-injective manifest_json v.docs.manifest
                (sym manifest_read ∙ read_documents_manifest v.docs v.docs_read)
              ∙ v.manifest_is)))
        input e ci (ci_read ∙ ap ok (expect_dict-eq-ok ci_json ci is_ci)) h6
