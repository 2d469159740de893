-- ===== src/Lib.antt =====
-- The AMP packager (packager/ and transformer/): the server that fetches AMP documents and answers
-- them as signed exchanges. The library models the core that decides what is fetched, what is signed
-- and how.
--
-- A request comes to the mux (Mux for packager/mux/mux.go, with the constants of
-- packager/util/util.go), which routes it by the prefix of its path to a handler with parameters. The
-- signer (Signer for packager/signer/signer.go) reads the URLs to fetch and to sign, has them checked
-- against the configured URL sets (Validation for packager/signer/validation.go; Config for
-- packager/util/config.go), fetches the document with the headers that Signer/Forward builds, asks
-- AMP-Cache-Transform (CacheTransform for packager/amp_cache_transform/amp_cache_transform.go,
-- Versions for transformer/versions.go) and Accept (Accept for packager/accept/accept.go) whether an
-- exchange is wanted, and answers an error, a 304, the response unsigned, or a signed exchange.
-- Header models packager/util/http.go, Header/Access `GetJoined` with net/http's `Get` and `Set`.
-- CertCache models packager/certcache/certcache.go: the freshness of OCSP responses and the retries of
-- `readOCSP`, CertCache/Fetch the request to the OCSP server, CertCache/Serve the handlers (with
-- packager/healthz/healthz.go), CertCache/Renewal the renewal of certificates, and CertCache/Storage
-- packager/certcache/storage.go, which keeps a response in memory and in a file. The signer asks the
-- certificate cache for its health.
--
-- The document goes through transformer/transformer.go: Transformer/Process models `Process`, which
-- checks the HTML (Utf8 for transformer/utf8.go) and its format (Transformer/Formats), runs the
-- transformers of the configuration (Transformer/Request) on the parsed document, takes the preloads
-- from it (Transformer/Head; the signer's Link header is made of them), prints it (Printer for
-- transformer/printer/printer.go) and suggests an age (Transformer/MaxAge), which bounds the signature.
-- Dom models the document and transformer/internal/htmlnode/htmlnode.go: Dom/Walk the walk with `Next`
-- and `RemoveNode` on a zipper, Dom/Attributes the attributes of a node, and Dom/Slice
-- `RemoveAttribute` on the array behind them. Of the transformers, StripJs models
-- transformer/transformers/stripjs.go, with its loop over the attributes in StripJs/Events, and Reorder
-- transformer/transformers/reorderhead.go, with the scripts of transformer/internal/amphtml/amphtml.go
-- in Reorder/Scripts, and Unused transformer/transformers/unusedextensions.go. Layout models
-- transformer/layout: csslength.go in Layout/CssLength, layout.go in Layout and Layout/Apply. Css
-- models the style sheets of transformer/internal/css: token.go in Css/Runes, Css/Reads, Css/Numbers,
-- Css/Switch and Css/Tokenizer, cssurl.go in Css/Urls; Srcset the
-- image sets of transformer/internal/amphtml/srcset.go.
--
-- Data: text is a list of bytes; a header is an association list from canonical keys to values; an
-- int64 is an integer that the model only compares, with its bounds where the source parses one;
-- times are nanoseconds, as natural numbers. The position of the tokenizer is what is left of its
-- input. The stores and the renewal pass their state explicitly, and a lock that is taken twice is an
-- outcome of its own (`stuck`). A handler is a chain in a result
-- monad whose error is an early reply. A pair of a value and an error is a `Result`; a nil pointer
-- that the code would read is an error of its own. A map of headers that two values share is written
-- out: what an exchange does to it is `header_of` that exchange.
--
-- Fuel: the parser of parameterised lists runs on the length of its text and one more, and the UTF-8
-- check on the length of the document: each round reads at least one byte. The loops of the CSS
-- tokenizer run on the length of what is left and one more, those over tokens on their number and one
-- more. The walk over a document runs on the number of its nodes. The printer of
-- integers runs on 20 digits, and an int64 has at most 19. Every other loop is structural; that of
-- `readOCSP` counts its tries down.
--
-- Parameters, for code that is not of the repository or not modelled: net/url (`UrlLib`), `regexp`,
-- `mime.ParseMediaType`, the TOML parser, the cachecontrol and signedexchange libraries, the OCSP
-- parser with its server, the file system, the CA, `html.Parse` and `html.EscapeString`, the floats
-- of lengths, the transformer as the signer calls it and each transformer as `Process` does, the
-- clock, the certificate and the backend.
-- White space and case in Content-Security-Policy are those of ASCII.
--
-- Not modelled: logging and metrics; the goroutines of the certificate cache, and its loading from
-- disk; certificate fetching and loading; the RTV cache; the transformers of HTML but StripJS,
-- ReorderHead and UnusedExtensions; the programs under cmd/.
pub mod Prelude
pub mod Accept
pub mod CacheTransform
pub mod CertCache
pub mod Config
pub mod Css
pub mod Dom
pub mod Header
pub mod Layout
pub mod Mux
pub mod Printer
pub mod Reorder
pub mod Signer
pub mod Srcset
pub mod StripJs
pub mod Tests
pub mod Transformer
pub mod Unused
pub mod Utf8
pub mod Validation
pub mod Versions
