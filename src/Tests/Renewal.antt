-- ===== src/Tests/Renewal.antt =====
-- Tests of the requests for OCSP responses, of their storage and of the renewal of certificates.
use amppackager.Prelude.{ℕ, ◌+◌, ◌≡◌, ◌↔◌, refl, true, false, [], ◌∷◌, none, some, ok}
use amppackager.Prelude.Text.{Bytes, codes}
use amppackager.CertCache.{Ocsp, OcspResponse}
use amppackager.CertCache.Fetch.{Certificate, OcspNetwork, fetch_ocsp}
use amppackager.CertCache.Fetch.Valid.{Fetched, fetch_ocsp-Fetched}
use amppackager.CertCache.Storage.{Disk, Expired, Update, chained_read}
use amppackager.CertCache.Storage.Settled.{Settled, chained_read-Settled}
use amppackager.CertCache.Renewal.{Renewal, Certs, stuck, update_cert_if_necessary}
use amppackager.CertCache.Renewal.Locks.{SticksFetching, update_cert_if_necessary-stuck}
use amppackager.CertCache.Serve.{ChainServer, serve_chain}
use amppackager.CertCache.Serve.Timely.{IsTimely, serve_chain-IsTimely}

abbrev leaf : Certificate
leaf = record {
  subject = codes "leaf";
  issuer = codes "ca";
  not_before = 10;
  not_after = 1000;
  ocsp_servers = codes "http://ocsp" ∷ [];
}

abbrev ca : Certificate
ca = record {
  subject = codes "ca";
  issuer = codes "root";
  not_before = 0;
  not_after = 5000;
  ocsp_servers = [];
}

abbrev reply_times : OcspResponse
reply_times = record { this_update = 40; next_update = 400 }

-- A server that answers every request.
abbrev network : OcspNetwork
network = record {
  World = ℕ;
  now = λ w. 50 + w;
  generate = none;
  create_request = λ c i. some (codes "request");
  path_of = λ b. b;
  is_request = λ m u. true;
  Reply = Bytes;
  send = λ req w. (some (codes "reply"), w + 1);
  cachable_until = λ req reply. some 300;
  read_all = λ n b. some b;
  parse_response = λ b c i. some (record { status = 0; produced_at = 45; times = reply_times });
}

fetch_ocsp_run : fetch_ocsp network [] (leaf ∷ ca ∷ []) false 0 ≡ ((codes "reply", some 300), 1)
unfolding fetch_ocsp
fetch_ocsp_run = refl

fetch_ocsp-Fetched_example :
    Fetched network [] (leaf ∷ ca ∷ []) 51 (fetch_ocsp network [] (leaf ∷ ca ∷ []) false 0).0.0
unfolding fetch_ocsp
fetch_ocsp-Fetched_example = fetch_ocsp-Fetched network [] (leaf ∷ ca ∷ []) false 0

-- A disk that holds one file.
abbrev disk : Disk
disk = record {
  World = Bytes;
  is_windows = false;
  try_rlock = λ w. (some true, w);
  try_lock = λ w. (some true, w);
  unlock = λ w. (true, w);
  stat = λ w. (some true, w);
  read_file = λ w. (some w, w);
  write_file = λ b w. (true, b);
  wait = λ s. s;
}

abbrev if_empty : Expired disk
if_empty [] s = true
if_empty (c ∷ cs) s = false

abbrev make_new : Update disk
make_new b s = (codes "new", s)

read_file_run :
    chained_read disk if_empty make_new ([], codes "old")
    ≡ (ok (codes "old"), (codes "old", codes "old"))
unfolding chained_read
read_file_run = refl

update_run :
    chained_read disk if_empty make_new ([], []) ≡ (ok (codes "new"), (codes "new", codes "new"))
unfolding chained_read
update_run = refl

chained_read-Settled_example :
    Settled disk if_empty make_new ([], []) (chained_read disk if_empty make_new ([], []))
chained_read-Settled_example = chained_read-Settled disk if_empty make_new ([], [])

-- A CA that answers a new certificate.
abbrev renewal : Renewal
renewal = record {
  World = ℕ;
  now = λ w. 900;
  cert_name = λ c. c.subject;
  has_fetcher = true;
  fetch_new_cert = λ w. (some (leaf, ca ∷ []), w);
  write_certs = λ new chain w. w;
  load_certs = λ new w. (none, w);
  remove_new_cert_file = λ w. w;
  remove_ocsp_file = λ w. w;
  read_ocsp = λ certs w. (none, w);
  fetch_ocsp = λ b chain w. (b, w);
  is_healthy = λ certs b w. false;
}

abbrev near_expiry : Certs renewal
near_expiry = record {
  certs = some (leaf, ca ∷ []);
  cert_name = codes "leaf";
  renewed_certs = none;
  renewed_cert_name = [];
  renewed_held = false;
  world = 0;
}

-- The renewal of a certificate that is close to its expiry does not return.
never_renewed : update_cert_if_necessary renewal near_expiry ≡ stuck
unfolding update_cert_if_necessary
never_renewed = refl

update_cert_if_necessary-stuck_example :
    (update_cert_if_necessary renewal near_expiry ≡ stuck) ↔ SticksFetching renewal near_expiry
update_cert_if_necessary-stuck_example = update_cert_if_necessary-stuck renewal near_expiry refl

-- A cache whose file has a response.
abbrev quiet : Ocsp
quiet = record {
  World = ℕ;
  now = λ w. 100;
  has_issuer = true;
  parse_response = λ b. some (record { this_update = 50; next_update = 5000000200 });
  read = λ retry w. ((some (codes "ocsp"), none), w);
  sleep = λ wait w. w;
}

abbrev chain_server : ChainServer
chain_server = record {
  ocsp = quiet;
  cert_name = codes "leaf";
  itoa = λ n. n ∷ [];
  write_chain = λ b. some (codes "chain");
  error_text = λ e. [];
}

serve_chain-IsTimely_example :
    IsTimely chain_server 100 (serve_chain chain_server (codes "leaf") 300 0).0.0
serve_chain-IsTimely_example = serve_chain-IsTimely chain_server (codes "leaf") 300 0
