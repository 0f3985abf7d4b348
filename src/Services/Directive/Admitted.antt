-- ===== src/Services/Directive/Admitted.antt =====
-- Which directives src/orkio_v2/services/audit_invocation_directive.py admits.
use efata_777_backend_premiu.Prelude.{
  ℕ, ◌≤◌, String, ◌≡◌, refl, sym, true, false, not, Bool-cases, inl, inr, Option, none, some, List,
  ◌++◌, leb, find, any, arith,
}
use efata_777_backend_premiu.Prelude.Text.{strip, is_empty, drop_text}
use efata_777_backend_premiu.Runtime.Contracts.{Result, ok, err}
use efata_777_backend_premiu.Access.Principal.{includes}
use efata_777_backend_premiu.Services.AuditPath.Parts.{starts_text}
use efata_777_backend_premiu.Services.Directive.Bytes.{utf8_length}
use efata_777_backend_premiu.Services.Directive.Contracts.{AuditOperationSpec, operation_spec}
use efata_777_backend_premiu.Services.Directive.{
  Value, text, natural, negative, other, Field, Payload, fields, not_object, AuditDirective,
  first_error, arguments_of, has_name, is_forbidden, is_unknown, is_missing, or_directive,
  with_spec, of_operation, with_operation, is_version, with_payload, of_decoded,
  looks_like_audit_directive, parse_audit_directive,
}
use efata_777_backend_premiu.Services.Directive.Arguments.{
  IsText, required-IsText, arguments_of-any, arguments_of-own,
}

pub record IsAdmitted (d : AuditDirective) : Type 0 where
  pub known : operation_spec d.operation ≡ ok d.spec
  pub harmless : any is_forbidden d.arguments ≡ false
  pub own :
      any
        (λ f. not (includes f.name (d.spec.required_fields ++ d.spec.optional_fields)))
        d.arguments
      ≡ false
  pub valid : first_error d.arguments ≡ none
  pub required :
      (name : String) → includes name d.spec.required_fields ≡ true → IsText name d.arguments

or_directive-ok :
    (e : Option String) (d d' : AuditDirective) → or_directive e d ≡ ok d' → (e ≡ none) × (d ≡ d')
or_directive-ok none d d' h = (refl, cc h)
or_directive-ok (some code) d d' h = cc h

with_spec-IsAdmitted :
    (operation : String) (fs : List Field) (known : Result AuditOperationSpec) (d : AuditDirective)
    → operation_spec operation ≡ known
    → any is_forbidden fs ≡ false
    → with_spec operation fs known ≡ ok d
    → IsAdmitted d × (d.arguments ≡ arguments_of fs)
unfolding with_spec
with_spec-IsAdmitted operation fs (err code) d k safe h = cc h
with_spec-IsAdmitted operation fs (ok spec) d k safe h =
    elim (Bool-cases (any (is_unknown spec) fs)) [
      | inl u ↦ cc (rw u at h)
      | inr u ↦ elim (Bool-cases (any (is_missing fs) spec.required_fields)) [
        | inl m ↦ cc (rw (u, m) at h)
        | inr m ↦
            let (v, same) =
              or_directive-ok (first_error (arguments_of fs))
                (record {
                  version = "1";
                  operation = operation;
                  spec = spec;
                  arguments = arguments_of fs;
                })
                d (rw (u, m) at h) in
            rw (sym same) (
              record {
                known = k;
                harmless = arguments_of-any is_forbidden fs safe;
                own = arguments_of-own (spec.required_fields ++ spec.optional_fields) fs u;
                valid = v;
                required = required-IsText operation spec fs k m v;
              },
              refl,
            )
      ]
    ]

of_operation-IsAdmitted :
    (fs : List Field) (v : Value) (d : AuditDirective)
    → any is_forbidden fs ≡ false
    → of_operation fs v ≡ ok d
    → IsAdmitted d × (d.arguments ≡ arguments_of fs)
unfolding of_operation
of_operation-IsAdmitted fs (natural n) d safe h = cc h
of_operation-IsAdmitted fs (negative n) d safe h = cc h
of_operation-IsAdmitted fs other d safe h = cc h
of_operation-IsAdmitted fs (text s) d safe h = elim (Bool-cases (is_empty (strip s))) [
  | inl e ↦ cc (rw e at h)
  | inr e ↦ with_spec-IsAdmitted s fs (operation_spec s) d refl safe (rw e at h)
]

with_operation-IsAdmitted :
    (fs : List Field) (o : Option Field) (d : AuditDirective)
    → any is_forbidden fs ≡ false
    → with_operation fs o ≡ ok d
    → IsAdmitted d × (d.arguments ≡ arguments_of fs)
with_operation-IsAdmitted fs none d safe h = cc h
with_operation-IsAdmitted fs (some f) d safe h = of_operation-IsAdmitted fs f.value d safe h

with_payload-IsAdmitted :
    (payload : Payload) (d : AuditDirective)
    → with_payload payload ≡ ok d
    → (fs : List Field) × (payload ≡ fields fs) × IsAdmitted d × (d.arguments ≡ arguments_of fs)
unfolding with_payload
with_payload-IsAdmitted not_object d h = cc h
with_payload-IsAdmitted (fields fs) d h = elim (Bool-cases (any is_forbidden fs)) [
  | inl e ↦ cc (rw e at h)
  | inr e ↦ elim (Bool-cases (is_version (find (has_name "version") fs))) [
    | inr v ↦ cc (rw (e, v) at h)
    | inl v ↦
        let (admitted, taken) =
          with_operation-IsAdmitted fs (find (has_name "operation") fs) d e (rw (e, v) at h) in
        (fs, refl, admitted, taken)
  ]
]

of_decoded-IsAdmitted :
    (raw : String) (decoded : Option (Payload × ℕ)) (d : AuditDirective)
    → of_decoded raw decoded ≡ ok d
    → (fs : List Field) × (end : ℕ) × (decoded ≡ some (fields fs, end))
      × (is_empty (strip (drop_text end raw)) ≡ true)
      × IsAdmitted d
      × (d.arguments ≡ arguments_of fs)
unfolding of_decoded
of_decoded-IsAdmitted raw none d h = cc h
of_decoded-IsAdmitted raw (some (payload, end)) d h =
    elim (Bool-cases (is_empty (strip (drop_text end raw)))) [
      | inr e ↦ cc (rw e at h)
      | inl e ↦
          let (fs, is_fields, admitted, taken) = with_payload-IsAdmitted payload d (rw e at h) in
          (fs, end, rw is_fields refl, e, admitted, taken)
    ]

-- A parsed directive is a message of at most 20000 bytes that begins with "/audit " and goes on with one JSON object and only spaces behind it; its operation is a known one, its arguments are the object's fields but version and operation, all of them fields of the operation, valid and none of the forbidden ones, and every field that the operation requires is an argument that is a text, not blank, within the limit of bytes of its name and without a NUL.
pub parse_audit_directive-IsAdmitted :
    (raw_decode : String → Option (Payload × ℕ)) (message : String) (d : AuditDirective)
    → parse_audit_directive raw_decode message ≡ some (ok d)
    → (starts_text "/audit " message ≡ true)
      × (utf8_length message ≤ 20000)
      × (fs : List Field) × (end : ℕ) × (raw_decode (drop_text 7 message) ≡ some (fields fs, end))
      × (is_empty (strip (drop_text end (drop_text 7 message))) ≡ true)
      × IsAdmitted d
      × (d.arguments ≡ arguments_of fs)
unfolding parse_audit_directive
parse_audit_directive-IsAdmitted raw_decode message d h =
    elim (Bool-cases (looks_like_audit_directive message)) [
      | inr l ↦ cc (rw l at h)
      | inl l ↦ elim (Bool-cases (starts_text "/audit " message)) [
        | inr s ↦ cc (rw (l, s) at h)
        | inl s ↦ elim (Bool-cases (leb (utf8_length message) 20000)) [
          | inr b ↦ cc (rw (l, s, b) at h)
          | inl b ↦
              let (fs, end, decoded, rest, admitted, taken) =
                of_decoded-IsAdmitted (drop_text 7 message) (raw_decode (drop_text 7 message)) d
                  (cc (rw (l, s, b) at h)) in
              (s, ground arith, fs, end, decoded, rest, admitted, taken)
        ]
      ]
    ]
