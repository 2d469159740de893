-- ===== src/Tests/Certs.antt =====
-- Tests of the OCSP responses.
use amppackager.Prelude.{ℕ, suc, ◌≡◌, refl, true, none, some, ok, ltb, if◌then◌else◌}
use amppackager.Prelude.Text.{codes}
use amppackager.CertCache.{Ocsp, read_ocsp}
use amppackager.CertCache.Fresh.{Served, read_ocsp-Served}

-- A server that fails twice, and then answers a response with the time of the next fetch.
abbrev flaky : Ocsp
flaky = record {
  World = ℕ;
  now = λ w. 100;
  has_issuer = true;
  parse_response = λ b. some (record { this_update = 50; next_update = 200 });
  read = λ retry w. ((if ltb w 2 then none else some (codes "ocsp"), some 300), suc w);
  sleep = λ wait w. w;
}

flaky_read : read_ocsp flaky true 0 0 ≡ ((ok (codes "ocsp", some 300), 300), suc 9)
unfolding read_ocsp
flaky_read = refl

read_ocsp-Served_example :
    Served flaky (read_ocsp flaky true 300 0).1 (read_ocsp flaky true 300 0).0.0
read_ocsp-Served_example = read_ocsp-Served flaky true 300 0
