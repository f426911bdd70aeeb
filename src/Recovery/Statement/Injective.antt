-- ===== src/Recovery/Statement/Injective.antt =====
-- crates/perch-recovery-interface/src/statement.rs: the encoding can be read back, so that evidence for
-- one statement is evidence for no other.
use perch.Common.{
  ℕ, zero, suc, Address, Bytes, Bytes32, some, [], ◌∷◌, ◌++◌, ◌≡◌, refl, sym, ◌∙◌, ap, drop, ok,
  ok_or, ok_or-ok, >>=-eq-ok,
}
use perch.Encode.{contract_id, to_be}
use perch.Encode.Fields.{Fits, number, number-to_be, number-last, after-to_be}
use perch.Recovery.Statement.{
  RecoveryStatement, StatementSubject, lost_key_of, compromise_of, cancel_of, reconfigure_to,
  upgrade_to, ConfigChange, remove, set_to, AttemptSubject, ConfigBinding, StatementTiming, action,
  action_code, statement_domain, encode_subject, encode_body, encode,
}

abbrev FitsAttempt : AttemptSubject → Type 0
FitsAttempt s =
    Fits 8 s.attempt_id
    × Fits 32 s.source_doc_hash
    × Fits 32 s.target_doc_hash
    × Fits 32 s.replacements_hash

abbrev FitsChange : ConfigChange → Type 0
FitsChange remove = Unit {0}
FitsChange (set_to h) = Fits 32 h

abbrev FitsSubject : StatementSubject → Type 0
FitsSubject (lost_key_of s) = FitsAttempt s
FitsSubject (compromise_of s) = FitsAttempt s
FitsSubject (cancel_of s) = Fits 8 s.attempt_id × Fits 32 s.attempt_statement
FitsSubject (reconfigure_to c) = FitsChange c
FitsSubject (upgrade_to s) = Fits 8 s.request_id × Fits 32 s.wasm_hash

-- The statement's numbers have their types' widths.
abbrev pub FitsStatement : RecoveryStatement → Type 0
FitsStatement s =
    Fits 32 s.network_id
    × Fits 8 s.config.epoch
    × Fits 32 s.config.config_hash
    × Fits 4 s.timing.delay_ledgers
    × Fits 4 s.timing.expiry_ledgers
    × Fits 4 s.timing.valid_until_ledger
    × FitsSubject s.subject

-- A reading of the subject.
abbrev read_attempt : Bytes → AttemptSubject
read_attempt bs = record {
  attempt_id = number 8 bs;
  source_doc_hash = number 32 (drop 8 bs);
  target_doc_hash = number 32 (drop 32 (drop 8 bs));
  replacements_hash = number 32 (drop 32 (drop 32 (drop 8 bs)));
}

abbrev read_change : Bytes → ConfigChange
read_change (suc zero ∷ bs) = set_to (number 32 bs)
read_change _ = remove

abbrev read_subject : ℕ → Bytes → StatementSubject
read_subject (suc zero) bs = lost_key_of (read_attempt bs)
read_subject (suc (suc zero)) bs = compromise_of (read_attempt bs)
read_subject (suc (suc (suc zero))) bs =
    cancel_of (record { attempt_id = number 8 bs; attempt_statement = number 32 (drop 8 bs) })
read_subject (suc (suc (suc (suc zero)))) bs = reconfigure_to (read_change bs)
read_subject _ bs =
    upgrade_to (record { request_id = number 8 bs; wasm_hash = number 32 (drop 8 bs) })

read_attempt-encode :
    (s : AttemptSubject)
    → FitsAttempt s
    → read_attempt (
        to_be 8 s.attempt_id
        ++ (to_be 32 s.source_doc_hash
            ++ (to_be 32 s.target_doc_hash ++ to_be 32 s.replacements_hash)))
      ≡ s
read_attempt-encode s (a, b, c, d) =
    let r3 = to_be 32 s.replacements_hash in
    let r2 = to_be 32 s.target_doc_hash ++ r3 in
    let r1 = to_be 32 s.source_doc_hash ++ r2 in
    let d1 = after-to_be 8 s.attempt_id r1 in
    let d2 = ap (drop 32) d1 ∙ after-to_be 32 s.source_doc_hash r2 in
    let d3 = ap (drop 32) d2 ∙ after-to_be 32 s.target_doc_hash r3 in
    let e1 = number-to_be 8 s.attempt_id r1 a in
    let e2 = ap (number 32) d1 ∙ number-to_be 32 s.source_doc_hash r2 b in
    let e3 = ap (number 32) d2 ∙ number-to_be 32 s.target_doc_hash r3 c in
    let e4 = ap (number 32) d3 ∙ number-last 32 s.replacements_hash d in
    λ i. record {
      attempt_id = e1 i;
      source_doc_hash = e2 i;
      target_doc_hash = e3 i;
      replacements_hash = e4 i;
    }

read_subject-encode :
    (s : StatementSubject)
    → FitsSubject s
    → read_subject (action_code (action s)) (encode_subject s) ≡ s
unfolding encode_subject
read_subject-encode (lost_key_of s) f = ap lost_key_of (read_attempt-encode s f)
read_subject-encode (compromise_of s) f = ap compromise_of (read_attempt-encode s f)
read_subject-encode (cancel_of s) (a, b) =
    let r = to_be 32 s.attempt_statement in
    let e1 = number-to_be 8 s.attempt_id r a in
    let e2 = ap (number 32) (after-to_be 8 s.attempt_id r) ∙ number-last 32 s.attempt_statement b in
    λ i. cancel_of (record { attempt_id = e1 i; attempt_statement = e2 i })
read_subject-encode (reconfigure_to remove) f = refl
read_subject-encode (reconfigure_to (set_to h)) f =
    ap (λ x. reconfigure_to (set_to x)) (number-last 32 h f)
read_subject-encode (upgrade_to s) (a, b) =
    let r = to_be 32 s.wasm_hash in
    let e1 = number-to_be 8 s.request_id r a in
    let e2 = ap (number 32) (after-to_be 8 s.request_id r) ∙ number-last 32 s.wasm_hash b in
    λ i. upgrade_to (record { request_id = e1 i; wasm_hash = e2 i })

-- A reading of the bytes behind the domain tag, with the two contract ids.
record Reading : Type 0 where
  network_id : Bytes32
  account_id : Bytes32
  controller_id : Bytes32
  config : ConfigBinding
  timing : StatementTiming
  subject : StatementSubject

abbrev reading_of : Bytes32 → Bytes32 → RecoveryStatement → Reading
reading_of account controller s = record {
  network_id = s.network_id;
  account_id = account;
  controller_id = controller;
  config = s.config;
  timing = s.timing;
  subject = s.subject;
}

unfoldable read_tail : ℕ → Bytes → Reading
read_tail code bs =
    let b1 = drop 32 bs in
    let b2 = drop 32 b1 in
    let b3 = drop 32 b2 in
    let b4 = drop 8 b3 in
    let b5 = drop 32 b4 in
    let b6 = drop 4 b5 in
    let b7 = drop 4 b6 in
    let b8 = drop 4 b7 in
    record {
      network_id = number 32 bs;
      account_id = number 32 b1;
      controller_id = number 32 b2;
      config = record { epoch = number 8 b3; config_hash = number 32 b4 };
      timing = record {
        delay_ledgers = number 4 b5;
        expiry_ledgers = number 4 b6;
        valid_until_ledger = number 4 b7;
      };
      subject = read_subject code b8;
    }

unfoldable read_body : Bytes → Reading
read_body (version ∷ code ∷ bs) = read_tail code bs
read_body _ = read_tail 0 []

read_body-encode :
    (account controller : Bytes32) (s : RecoveryStatement)
    → Fits 32 account
    → Fits 32 controller
    → FitsStatement s
    → read_body (encode_body account controller s) ≡ reading_of account controller s
unfolding read_body read_tail encode_body
read_body-encode account controller s fa fc (f1, f2, f3, f4, f5, f6, f7) =
    let r8 = encode_subject s.subject in
    let r7 = to_be 4 s.timing.valid_until_ledger ++ r8 in
    let r6 = to_be 4 s.timing.expiry_ledgers ++ r7 in
    let r5 = to_be 4 s.timing.delay_ledgers ++ r6 in
    let r4 = to_be 32 s.config.config_hash ++ r5 in
    let r3 = to_be 8 s.config.epoch ++ r4 in
    let r2 = to_be 32 controller ++ r3 in
    let r1 = to_be 32 account ++ r2 in
    let d1 = after-to_be 32 s.network_id r1 in
    let d2 = ap (drop 32) d1 ∙ after-to_be 32 account r2 in
    let d3 = ap (drop 32) d2 ∙ after-to_be 32 controller r3 in
    let d4 = ap (drop 8) d3 ∙ after-to_be 8 s.config.epoch r4 in
    let d5 = ap (drop 32) d4 ∙ after-to_be 32 s.config.config_hash r5 in
    let d6 = ap (drop 4) d5 ∙ after-to_be 4 s.timing.delay_ledgers r6 in
    let d7 = ap (drop 4) d6 ∙ after-to_be 4 s.timing.expiry_ledgers r7 in
    let d8 = ap (drop 4) d7 ∙ after-to_be 4 s.timing.valid_until_ledger r8 in
    let e1 = number-to_be 32 s.network_id r1 f1 in
    let ea = ap (number 32) d1 ∙ number-to_be 32 account r2 fa in
    let ec = ap (number 32) d2 ∙ number-to_be 32 controller r3 fc in
    let e2 = ap (number 8) d3 ∙ number-to_be 8 s.config.epoch r4 f2 in
    let e3 = ap (number 32) d4 ∙ number-to_be 32 s.config.config_hash r5 f3 in
    let e4 = ap (number 4) d5 ∙ number-to_be 4 s.timing.delay_ledgers r6 f4 in
    let e5 = ap (number 4) d6 ∙ number-to_be 4 s.timing.expiry_ledgers r7 f5 in
    let e6 = ap (number 4) d7 ∙ number-to_be 4 s.timing.valid_until_ledger r8 f6 in
    let e7 =
      ap (read_subject (action_code (action s.subject))) d8 ∙ read_subject-encode s.subject f7 in
    λ i. record {
      network_id = e1 i;
      account_id = ea i;
      controller_id = ec i;
      config = record { epoch = e2 i; config_hash = e3 i };
      timing = record { delay_ledgers = e4 i; expiry_ledgers = e5 i; valid_until_ledger = e6 i };
      subject = e7 i;
    }

encode-ok :
    (to_xdr : Address → Bytes) (s : RecoveryStatement) (b : Bytes)
    → encode to_xdr s ≡ ok b
    → (account : Bytes32) × (controller : Bytes32) × (contract_id (to_xdr s.account) ≡ some account)
      × (contract_id (to_xdr s.controller) ≡ some controller)
      × (b ≡ statement_domain ++ encode_body account controller s)
unfolding encode
encode-ok to_xdr s b h =
    let (account, ea, k) = >>=-eq-ok (ok_or (contract_id (to_xdr s.account)) _) _ h in
    let (controller, ec, q) = >>=-eq-ok (ok_or (contract_id (to_xdr s.controller)) _) _ k in
    (
      account,
      controller,
      ok_or-ok (contract_id (to_xdr s.account)) _ account ea,
      ok_or-ok (contract_id (to_xdr s.controller)) _ controller ec,
      cc,
    )

-- Two statements, their numbers of their types' widths, with the same encoding are for the same contract
-- as account and as controller, on the same network, and have the same configuration, timing and
-- subject: no evidence for one action, attempt or change is evidence for another. The host gives a
-- contract an id of 32 bytes.
pub encode-injective :
    (to_xdr : Address → Bytes) (s t : RecoveryStatement) (b : Bytes)
    → ((a : Address) (id : Bytes32) → contract_id (to_xdr a) ≡ some id → Fits 32 id)
    → FitsStatement s
    → FitsStatement t
    → encode to_xdr s ≡ ok b
    → encode to_xdr t ≡ ok b
    → (contract_id (to_xdr s.account) ≡ contract_id (to_xdr t.account))
      × (contract_id (to_xdr s.controller) ≡ contract_id (to_xdr t.controller))
      × (s.network_id ≡ t.network_id)
      × (s.config ≡ t.config)
      × (s.timing ≡ t.timing)
      × (s.subject ≡ t.subject)
encode-injective to_xdr s t b host fs ft hs ht =
    let (sa, sc, eas, ecs, bs) = encode-ok to_xdr s b hs in
    let (ta, tc, eat, ect, bt) = encode-ok to_xdr t b ht in
    let body : encode_body sa sc s ≡ encode_body ta tc t = ap (drop 24) (sym bs ∙ bt) in
    let e =
      sym (read_body-encode sa sc s (host s.account sa eas) (host s.controller sc ecs) fs)
      ∙ ap read_body body
      ∙ read_body-encode ta tc t (host t.account ta eat) (host t.controller tc ect) ft in
    (
      eas ∙ ap (λ r. some r.account_id) e ∙ sym eat,
      ecs ∙ ap (λ r. some r.controller_id) e ∙ sym ect,
      ap (λ r. r.network_id) e,
      ap (λ r. r.config) e,
      ap (λ r. r.timing) e,
      ap (λ r. r.subject) e,
    )
