-- ===== src/Tests/Classification.antt =====
-- Commands of internal/cmdclass/cmdclass_test.go.
use srvgov_cli.Prelude.{◌≡◌, refl}
use srvgov_cli.GoText.{codes, cut, trim_prefix}
use srvgov_cli.Cmdclass.Risk.{r0, r1, r2, r3}
use srvgov_cli.Cmdclass.Classify.{classify}
use srvgov_cli.Tests.Sample.{ascii}

reads :
    (classify (codes "ls -la /var/log") ≡ r0)
    × (classify (codes "journalctl -u nginx --since today") ≡ r0)
    × (classify (codes "find . -name '*.go'") ≡ r0)
    × (classify (codes "ip -4 addr show") ≡ r0)
    × (classify (codes "docker logs web") ≡ r0)
unfolding classify
reads = (refl, refl, refl, refl, refl)

changes :
    (classify (codes "mkdir -p /tmp/work") ≡ r1)
    × (classify (codes "cat a | grep b") ≡ r1)
    × (classify (codes "systemctl restart nginx") ≡ r2)
    × (classify (codes "rm file.txt") ≡ r2)
    × (classify (codes "curl -q https://example.test") ≡ r2)
unfolding classify cut trim_prefix
changes = (refl, refl, refl, refl, refl)

refusals :
    (classify (codes "rm -rf build") ≡ r3)
    × (classify (codes "ls; sudo id") ≡ r3)
    × (classify (codes "echo $HOME") ≡ r3)
    × (classify (codes "echo x > /etc/passwd") ≡ r3)
    × (classify (codes "curl -q -o ../../etc/passwd https://example.test") ≡ r3)
    × (classify (codes "sleep 5 &") ≡ r3)
    × (classify (codes "A=1 ls") ≡ r3)
unfolding classify cut trim_prefix
refusals = (refl, refl, refl, refl, refl, refl, refl)

-- The options that write files which the rules of curl and wget allow.
file_options :
    (classify (codes "curl -q --hsts h.txt --libcurl c.txt https://example.test") ≡ r2)
    × (classify (codes "curl -q --libcurl /etc/passwd https://example.test") ≡ r3)
    × (classify
          (codes "wget --no-config --directory-prefix d --output-file=log https://example.test/a")
        ≡ r2)
    × (classify (codes "wget --no-config --append-output log https://example.test/a") ≡ r2)
    × (classify (codes "wget --no-config --append-output /etc/passwd https://example.test/a") ≡ r3)
unfolding classify cut trim_prefix
file_options = (refl, refl, refl, refl, refl)
