-- ===== src/Logfmt/Examples.antt =====
-- Lines as Docker Compose writes them, and the theorems at them.
use openstack_osa_office_clu.Prelude.{
  List, [], ◌∷◌, true, false, some, none, ok, err, ◌≡◌, ◌≢◌, refl, ltb, length, ◌+◌, if◌then◌else◌,
}
use openstack_osa_office_clu.Prelude.Text.{Text, codes}
use openstack_osa_office_clu.Logfmt.{
  Parser, parse_line, parse_unicode_sequence, step, quoted_value, no_space_for_unicode,
  bad_unicode_digit, no_equal, unterminated_string,
}
use openstack_osa_office_clu.Logfmt.Unicode.{parse_unicode_sequence-ne-ok, step_unicode}
use openstack_osa_office_clu.Logfmt.Total.{IsFine, parse_line-IsFine}
use openstack_osa_office_clu.Logfmt.RoundTrip.{write_line, add_pairs, parse_line-write_line}

parse_warning :
    parse_line (codes "time=\"2\" level=warning msg=\"a \\\"b\\\"\"") true
    ≡ ok (
        (codes "time", some (codes "2"))
        ∷ (codes "level", some (codes "warning"))
        ∷ (codes "msg", some (codes "a \"b\""))
        ∷ [])
unfolding parse_line
parse_warning = refl

parse_bare_key : parse_line (codes "foo") false ≡ ok ((codes "foo", none) ∷ [])
unfolding parse_line
parse_bare_key = refl

parse_bare_key_logrus : parse_line (codes "foo") true ≡ err no_equal
unfolding parse_line
parse_bare_key_logrus = refl

parse_unterminated : parse_line (codes "a=\"b") true ≡ err unterminated_string
unfolding parse_line
parse_unterminated = refl

-- A valid escape of the letter A is refused.
parse_unicode : parse_line (codes "a=\"\\u0041\"") false ≡ err (bad_unicode_digit b'\\')
unfolding parse_line
parse_unicode = refl

abbrev escape : Parser
escape = record { line = codes "\\u0041"; index = 0; key = []; value = []; result = [] }

parse_unicode_sequence-ne-ok_example : parse_unicode_sequence escape ≢ ok (65, escape)
parse_unicode_sequence-ne-ok_example = parse_unicode_sequence-ne-ok escape (65, escape)

step_unicode_example :
    step false quoted_value b'\\' escape
    ≡ err (
        if ltb (length escape.line) (escape.index + 6)
        then no_space_for_unicode
        else bad_unicode_digit b'\\')
step_unicode_example = step_unicode false escape refl refl

parse_line-IsFine_example : IsFine (parse_line (codes "a=b \"") true)
parse_line-IsFine_example = parse_line-IsFine (codes "a=b \"") true

abbrev pairs : List (Text × Text)
pairs = (codes "level", codes "warning") ∷ (codes "msg", codes "say \"hi\"\n") ∷ []

write_line-pairs : write_line pairs ≡ codes "level=\"warning\" msg=\"say \\\"hi\\\"\\n\" "
unfolding write_line
write_line-pairs = refl

parse_line-write_line_example : parse_line (write_line pairs) true ≡ ok (add_pairs pairs [])
parse_line-write_line_example =
    parse_line-write_line pairs true ((refl, refl, refl), ((refl, refl, refl), tt))
