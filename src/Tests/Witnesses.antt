-- ===== src/Tests/Witnesses.antt =====
-- The theorems of internal/cmdclass and of the remote commands at concrete commands.
use srvgov_cli.Prelude.{String, ◌≡◌, refl, ◌↔◌, true, false, some, List, [], ◌∷◌, ◌++◌, any, All}
use srvgov_cli.GoText.{contains_rune, Text, codes, is, has_exact_word, cut, trim_prefix, has_prefix}
use srvgov_cli.Cmdclass.Risk.{r0, r2, r3}
use srvgov_cli.Cmdclass.Scan.{Item, word_item, operator_item, scan}
use srvgov_cli.Cmdclass.Scan.Quote.{scan-shell_words, quoted_word}
use srvgov_cli.Cmdclass.Scan.Operators.{scan-IsShellItem, IsShellItem}
use srvgov_cli.Cmdclass.Options.{Next, same, following, split_long_option, long_option_value}
use srvgov_cli.Cmdclass.Options.Visits.{Visits, here, passed, stepped}
use srvgov_cli.Cmdclass.Curl.{
  classify_curl, curl_step, curl_output_options, curl_named_option, classify_curl_long_option,
  curl_flags, classify_curl_short_option, curl_flag_options, curl_value_options,
  curl_refused_options,
}
use srvgov_cli.Cmdclass.Curl.Accepted.{curl_output}
use srvgov_cli.Cmdclass.Transfer.{classify_curl_write_out, accept_value, accept_flag}
use srvgov_cli.Cmdclass.Transfer.WriteOut.{
  Directive, Unclosed, IsSafeTarget, classify_curl_write_out_iff,
}
use srvgov_cli.Cmdclass.Commands.{is_sudo}
use srvgov_cli.Cmdclass.Classify.{classify, classify_items, texts, is_redirect}
use srvgov_cli.Cmdclass.Classify.Spec.{segments, verdict, classify_items-verdict}
use srvgov_cli.Cmdclass.Classify.Bounds.{sudo-classify_items}
use srvgov_cli.Cmdclass.Classify.ReadOnly.{classify-IsReadLine, IsReadLine}
use srvgov_cli.Observe.ShellQuote.{shell_quote}
use srvgov_cli.Cmdclass.Words.{command_name}
use srvgov_cli.Cmdclass.Targets.{is_unsafe_output_target, is_sensitive_write_target}
use srvgov_cli.Tests.Sample.{ascii}

-- `ls -la`
ls_reads : classify (codes "ls -la") ≡ r0
unfolding classify
ls_reads = refl

classify-IsReadLine_example :
    (items : List Item) × (scan (codes "ls -la") ≡ some items) × IsReadLine items
classify-IsReadLine_example = classify-IsReadLine (codes "ls -la") ls_reads

-- A word with a quote and an operator in it, and one with an expansion.
scan-shell_words_example :
    scan (shell_quote (codes "a';b") ++ codes " '$(id)'")
    ≡ some (quoted_word (codes "a';b") ∷ quoted_word (codes "$(id)") ∷ [])
unfolding shell_quote
scan-shell_words_example =
    scan-shell_words (codes "a';b") (codes "$(id)" ∷ []) (refl, (refl, (refl, (refl, tt))))
      ((refl, (refl, (refl, (refl, (refl, tt))))), tt)

abbrev word : String → Item
word s = record { kind = word_item; text = codes s; quoted = false; unquoted_expansion = false }

abbrev operator_of : String → Item
operator_of s = record {
  kind = operator_item;
  text = codes s;
  quoted = false;
  unquoted_expansion = false;
}

-- `ls; sudo id`
abbrev sudo_line : List Item
sudo_line = word "ls" ∷ operator_of ";" ∷ word "sudo" ∷ word "id" ∷ []

classify_items-verdict_example : classify_items sudo_line ≡ verdict sudo_line
classify_items-verdict_example = classify_items-verdict sudo_line

sudo_in_line : any (λ seg. any is_sudo (texts seg)) (segments false [] sudo_line) ≡ true
unfolding segments is_sudo command_name is is_redirect has_exact_word
sudo_in_line = refl

sudo-classify_items_example : classify_items sudo_line ≡ r3
sudo-classify_items_example = sudo-classify_items sudo_line sudo_in_line

-- `ls|wc`
piped : scan (codes "ls|wc") ≡ some (word "ls" ∷ operator_of "|" ∷ word "wc" ∷ [])
unfolding scan
piped = refl

scan-IsShellItem_example : All IsShellItem (word "ls" ∷ operator_of "|" ∷ word "wc" ∷ [])
scan-IsShellItem_example = scan-IsShellItem (codes "ls|wc") piped

-- `rm -v /etc/passwd`
passwd_sensitive : is_sensitive_write_target (codes "/etc/passwd") ≡ true
unfolding is_sensitive_write_target
passwd_sensitive = refl

-- `curl -q --output a.txt https://e.test/`
abbrev curl_args : List Text
curl_args = codes "-q" ∷ codes "--output" ∷ codes "a.txt" ∷ codes "https://e.test/" ∷ []

curl_accepted : classify_curl curl_args ≡ r2
unfolding classify_curl cut trim_prefix
curl_accepted = refl

q_step :
    curl_step true (codes "-q") (codes "--output" ∷ codes "a.txt" ∷ codes "https://e.test/" ∷ [])
    ≡ some (same, true)
unfolding curl_step curl_named_option classify_curl_long_option curl_flags
    classify_curl_short_option curl_flag_options curl_value_options curl_refused_options
    curl_output_options is has_exact_word has_prefix trim_prefix split_long_option long_option_value
    accept_value accept_flag is_unsafe_output_target contains_rune
q_step = refl

output_step :
    curl_step true (codes "--output") (codes "a.txt" ∷ codes "https://e.test/" ∷ [])
    ≡ some (following, true)
unfolding curl_step curl_named_option classify_curl_long_option curl_flags
    classify_curl_short_option curl_flag_options curl_value_options curl_refused_options
    curl_output_options is has_exact_word has_prefix trim_prefix split_long_option long_option_value
    accept_value accept_flag is_unsafe_output_target contains_rune
output_step = refl

output-Visits :
    Visits curl_step true
      (codes "--output")
      (codes "a.txt" ∷ codes "https://e.test/" ∷ [])
      same
      true
      curl_args
output-Visits = stepped same true q_step here

url-Visits : Visits curl_step true (codes "https://e.test/") [] same true curl_args
url-Visits = stepped same true q_step (stepped following true output_step (passed here))

output_listed : has_exact_word (split_long_option (codes "--output")).0 curl_output_options ≡ true
unfolding split_long_option has_exact_word is curl_output_options
output_listed = refl

curl_output_example :
    (v : Text × Next) × (long_option_value
        (codes "a.txt" ∷ codes "https://e.test/" ∷ [])
        (split_long_option (codes "--output")).1
      ≡ some v)
    × (is_unsafe_output_target v.0 ≡ false)
curl_output_example =
    curl_output curl_args curl_accepted output-Visits (unfold has_prefix in refl) output_listed

-- `-w '%output{a.log}'`
abbrev write_out_value : Text
write_out_value = codes "%output{a.log}"

classify_curl_write_out_iff_example : (classify_curl_write_out write_out_value ≡ r2) ↔ (
    (is write_out_value "" ≡ false)
    × (has_prefix write_out_value "@" ≡ false)
    × ((t : Text) → Directive t write_out_value → IsSafeTarget t)
    × ¬ Unclosed write_out_value)
classify_curl_write_out_iff_example = classify_curl_write_out_iff write_out_value
