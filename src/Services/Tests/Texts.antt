-- ===== src/Services/Tests/Texts.antt =====
-- A spoken answer, a request for an agent and a file of an audit, and the theorems at them.
use efata_777_backend_premiu.Prelude.{
  ℕ, ◌≤◌, Option, find, true, String, ◌≡◌, refl, some, List, [], ◌∷◌, str_eq, any, ◌&&◌, ◌==◌,
  if◌then◌else◌,
}
use efata_777_backend_premiu.Prelude.Text.{text_length, is_empty, strip, lstrip, drop_text}
use efata_777_backend_premiu.Runtime.Contracts.{ok}
use efata_777_backend_premiu.Services.Segmenter.Ink.{ink}
use efata_777_backend_premiu.Services.Segmenter.Loop.{SentenceSegmenter}
use efata_777_backend_premiu.Services.Segmenter.Loop.Conservation.{ink_all, speak, speak_conserves}
use efata_777_backend_premiu.Services.TargetResolver.Words.{normalize_target, contains}
use efata_777_backend_premiu.Services.TargetResolver.{
  Entry, choose, exact_slugs, is_named, note_match, matches_from, source_of, of_matches, of_exact,
}
use efata_777_backend_premiu.Services.TargetResolver.Unique.{names, has_key, choose_unique}
use efata_777_backend_premiu.Services.AuditPath.Parts.{
  parts_from, parts_of, is_clean, starts_text, ends_text,
}
use efata_777_backend_premiu.Services.AuditPath.{
  Files, FileKind, Stat, VerifiedFile, root_of, is_root, set_root, register, new_policy,
  safe_components, checked_parts, is_secret_like, join, opened, inspected, walk, open_verified_file,
}
use efata_777_backend_premiu.Services.AuditPath.Verified.{IsVerified, open_verified_file-IsVerified}
use efata_777_backend_premiu.Services.Directive.Bytes.{utf8_length, has_nul}
use efata_777_backend_premiu.Services.Directive.Contracts.{operation_specs, operation_spec}
use efata_777_backend_premiu.Services.Directive.{
  Value, Field, Payload, fields, AuditDirective, limit_of, validate_text, validate_limited,
  validate_value, first_error, arguments_of, with_spec, of_operation, with_payload, of_decoded,
  looks_like_audit_directive, parse_audit_directive,
}
use efata_777_backend_premiu.Services.Directive.Admitted.{
  IsAdmitted, parse_audit_directive-IsAdmitted,
}

abbrev started : SentenceSegmenter
started = record { max_chars = 180; buffer = "Bom " }

speak_conserves_example :
    (segments : List String) × (speak ("dia, Dr. " ∷ "Silva. Hoje" ∷ []) started ≡ some segments)
    × (ink_all segments "" ≡ ink "Bom " (ink_all ("dia, Dr. " ∷ "Silva. Hoje" ∷ []) ""))
speak_conserves_example = speak_conserves ("dia, Dr. " ∷ "Silva. Hoje" ∷ []) started

abbrev index : List Entry
index =
    record { key = "ana"; slug = "ana"; source = "canonical_name" }
    ∷ record { key = "ana lima"; slug = "ana"; source = "display_name" }
    ∷ record { key = "beto"; slug = "beto"; source = "alias" }
    ∷ []

choose_unique_example :
    any
      (λ e.
        names
          (any (has_key (normalize_target "Fale com Ana Lima")) index)
          (normalize_target "Fale com Ana Lima")
          e
        && str_eq e.slug "beto")
      index
    ≡ str_eq "ana" "beto"
unfolding choose exact_slugs matches_from is_named contains note_match source_of of_exact of_matches
    text_length
choose_unique_example =
    choose_unique index "Fale com Ana Lima" "ana" "ana lima" "display_name" refl "beto"

abbrev a_directory : Stat
a_directory = record { kind = FileKind.directory; device = 1; inode = 10; size = 0 }

abbrev a_report : Stat
a_report = record { kind = FileKind.regular; device = 1; inode = 11; size = 42 }

abbrev disk : Files
disk = record {
  lstat = λ path. some a_directory;
  open_root = λ root. some 3;
  open_at = λ dir name. if str_eq name "logs" then some 4 else some 5;
  lstat_at = λ dir name. some a_report;
  fstat = λ fd. if fd == 5 then a_report else a_directory;
}

abbrev report : VerifiedFile
report = record {
  root_id = "app";
  relative_path = "logs/day.txt";
  fd = 5;
  size = 42;
  device = 1;
  inode = 11;
}

open_verified_file-IsVerified_example :
    (root : String) × (parts : List String) × (root_of "app" (("app", "/srv") ∷ []) ≡ some root)
    × (is_root disk root ≡ true)
    × (safe_components "logs/./day.txt" ≡ ok parts)
    × IsVerified disk root parts report
unfolding new_policy register set_root strip open_verified_file root_of safe_components is_clean
    parts_of parts_from checked_parts is_secret_like starts_text ends_text any join walk inspected
    opened
open_verified_file-IsVerified_example =
    open_verified_file-IsVerified disk ((" app ", "/srv") ∷ []) (("app", "/srv") ∷ []) "app"
      "logs/./day.txt" report refl refl

abbrev asked : List Field
asked =
    record { name = "version"; value = Value.text "1" }
    ∷ record { name = "operation"; value = Value.text "file.read_text" }
    ∷ record { name = "artifact_id"; value = Value.text "a1" }
    ∷ record { name = "offset"; value = Value.natural 10 }
    ∷ []

-- A decoder that reads `{...}` as that object.
abbrev five_read : String → Option (Payload × ℕ)
five_read raw = some (fields asked, 5)

abbrev read_text : AuditDirective
read_text = record {
  version = "1";
  operation = "file.read_text";
  spec = record {
    operation = "file.read_text";
    capability_id = "audit.file.inspect@1.0.0";
    required_fields = "artifact_id" ∷ [];
    optional_fields = "offset" ∷ "max_bytes" ∷ [];
  };
  arguments =
      record { name = "artifact_id"; value = Value.text "a1" }
      ∷ record { name = "offset"; value = Value.natural 10 }
      ∷ [];
}

parse_audit_directive-IsAdmitted_example :
    (starts_text "/audit " "/audit {...} " ≡ true)
    × (utf8_length "/audit {...} " ≤ 20000)
    × (fs : List Field) × (end : ℕ) × (five_read (drop_text 7 "/audit {...} ")
        ≡ some (fields fs, end))
    × (is_empty (strip (drop_text end (drop_text 7 "/audit {...} "))) ≡ true)
    × IsAdmitted read_text
    × (read_text.arguments ≡ arguments_of fs)
unfolding parse_audit_directive looks_like_audit_directive starts_text utf8_length of_decoded
    with_payload of_operation with_spec operation_spec operation_specs first_error validate_value
    validate_limited validate_text limit_of has_nul arguments_of find any drop_text strip lstrip
parse_audit_directive-IsAdmitted_example =
    parse_audit_directive-IsAdmitted five_read "/audit {...} " read_text refl
