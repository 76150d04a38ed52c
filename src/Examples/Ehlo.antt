-- ===== src/Examples/Ehlo.antt =====
-- EHLO responses through the capability parser.
use smtpc_cli.Capabilities.{
  apply, lines_loop, cap_init, parse_cap_line, parse_ehlo_response, EhloResult,
}
use smtpc_cli.Capabilities.Keys.{upper, starttls, recognise, extract_keyword_and_key, extract_loop}
use smtpc_cli.Capabilities.Recognise.{recognise_iff, word, name, IsByte}
use smtpc_cli.Capabilities.Params.{parse_digits, parse_size_param}
use smtpc_cli.Capabilities.Bounds.{IsBounded, parse_cap_line-IsBounded}
use smtpc_cli.Capabilities.Ehlo.{Announces, parse_ehlo_response-Announces}
use smtpc_cli.Capabilities.Summary.{decimal, append_token, format_summary}
use smtpc_cli.Capabilities.Params.{parse_digits}
use smtpc_cli.Capabilities.Summary.{append_token, decimal}
use smtpc_cli.Capabilities.{apply, lines_loop}
use smtpc_cli.ReplyReader.{read_loop}
use smtpc_cli.Capabilities.Keys.{upper}
use smtpc_cli.ReplyParser.{
  parse_line, parse_buffer, parse_code, determine_separator, finish_line, scan_text_and_crlf,
  is_text_char, parse_line, LastError,
}
use smtpc_cli.ReplyReader.{read_loop, read}
use smtpc_cli.Common.{
  arith, [], ◌∷◌, ◌++◌, Bytes, cr, lf, codes, ◌≡◌, refl, some, none, true, ◌↔◌, All,
}

abbrev clean : LastError
clean = record { err = none; offset = 0 }

abbrev starttls_line : Bytes
starttls_line = codes "startTLS now"

starttls_line-IsByte : All IsByte starttls_line
starttls_line-IsByte = ground arith

recognise_iff_example :
    (recognise (extract_keyword_and_key starttls_line) ≡ starttls)
    ↔ (word starttls_line ≡ name starttls)
recognise_iff_example = recognise_iff starttls_line starttls_line-IsByte starttls (ground arith)

cap_init-IsBounded : IsBounded cap_init
cap_init-IsBounded = record {
  slots = omega arith;
  stored = tt;
  auth_raw_fits = omega arith;
  size_fits = omega arith;
}

parse_cap_line-IsBounded_example : IsBounded (parse_cap_line cap_init starttls_line)
parse_cap_line-IsBounded_example =
    parse_cap_line-IsBounded cap_init starttls_line cap_init-IsBounded

-- A greeting line and two capabilities.
abbrev response : Bytes
response =
    codes "250-mx"
    ++ cr ∷ lf ∷ (codes "250-SIZE 100" ++ cr ∷ lf ∷ (codes "250 starttls" ++ cr ∷ lf ∷ []))

parse_ehlo_response-Announces_example :
    Announces response 64
      (read (some response) 64 clean).0
      (parse_ehlo_response response 64 clean).0
parse_ehlo_response-Announces_example = parse_ehlo_response-Announces response 64 clean

parse_ehlo-response :
    (parse_ehlo_response response 64 clean).0
    ≡ EhloResult.ok (record cap_init {
      has_size = true;
      size_limit_valid = true;
      size_limit = 100;
      has_starttls = true;
    })
unfolding parse_ehlo_response read read_loop lines_loop parse_cap_line apply recognise
    extract_keyword_and_key extract_loop upper parse_size_param parse_digits parse_line parse_buffer
    parse_code determine_separator finish_line scan_text_and_crlf is_text_char
parse_ehlo-response = refl

format_summary-response :
    format_summary
      (record cap_init {
        has_size = true;
        size_limit_valid = true;
        size_limit = 100;
        has_starttls = true;
      })
      256
    ≡ codes "STARTTLS SIZE=100"
unfolding format_summary append_token decimal
format_summary-response = refl
