-- ===== src/Lib.antt =====
-- The telemetry server and its Go client: the server stores the objects of data bottles (blobs,
-- bottles, manifests, events, signatures) by digest and keeps tables about them; clients push
-- objects, push what the server says is missing, and mirror whole servers to directories and back.
--
-- Parts, and the code that they model:
--   Errors, Action  error values (pkg/types/http.go and Go's errors package), and functions on an
--                   outside world that may fail. What was done before an error stays done.
--                   Action/Returns and Action/Ensures are the rules by which proofs walk through
--                   them.
--   Types           the entries of lists (pkg/types/types.go), and the bodies of events and
--                   signatures with their validation (event.go, signature.go). go-digest is the
--                   parameter `Digester`, the rules of ozzo-validation are the parameter `Rules`.
--   Signatures      the validation of signatures (pkg/signature/sigvalidate.go, and the choice of
--                   a key and a way in internal/db/signature_processor.go); the libraries are the
--                   parameter `Crypto`.
--   Client          the interface of pkg/client/client.go, over any world.
--     Dummy         pkg/client/dummy.go
--     Utils         parallelMap and genericGet (pkg/client/utils.go). Goroutines act in the order
--                   of a schedule, one after the other; each writes only its own slot.
--     Requests      PUT, GET, list and search requests (pkg/client/requests.go, auth.go). The
--                   transport, JSON and formatting are the parameter `Http`.
--     Transfer      Download, DownloadAll, Upload, UploadAll (pkg/client/requests.go). The file
--                   system and csv are the parameter `Files`.
--     Single        one server (pkg/client/single.go): Send methods that push what is missing and
--                   push again.
--     Multi         several servers (pkg/client/multi.go).
--   Db              the server's records (internal/db/models.go). gorm is the parameter `Gorm`,
--                   with its documented outcomes in `IsDocumented`.
--     Helpers       processByKey and processByIndex (helpers.go).
--     Scopes        the scopes of queries (scopes.go) and FindDeprecatedBy, FindDeprecates
--                   (deprecate.go), as functions from tables to rows; Joins has the two kinds of
--                   SQL joins. Scopes/Selectors is FilterBySelectors, Scopes/Metrics
--                   FilterByMetric, Scopes/Authors SearchByAuthor.
--     Relatives     the generations of relatives (relatives.go).
--     Processors    Reprocess and the processors of the five object types (*_processor.go). JSON,
--                   the schema and other libraries are the parameter `Documents`, deletions of
--                   owned rows the parameter `Deletes`; Processors/Linked says what gorm documents
--                   of saves and deletions (`IsSaving`).
--   Api             the handlers that all object types share (internal/api/handlers.go): a PUT
--                   stores the data, its digest and the object, a GET serves the data by any
--                   digest, a list is a page of a table in the order of creation. Routes lists the
--                   processors of internal/api/api.go.
--   Webapp          the extended ancestors of a bottle and the links to them, and the cutting of
--                   tooltips (internal/webapp/ancestors.go); Search has the parameters of a search
--                   (search.go), Partial the selection of parts (pages.go).
--   Device          how the client comes by an access token (pkg/oauth2/device/client.go).
--   Tests           the theorems at concrete servers, clients and tables.
--
-- Interaction: a client's requests go through `Http`; the contract `Accepts`
-- (Client/Single/Uploads) says how a server answers a PUT, and `Serves` (Client/Transfer/Contract)
-- how it lists. The handlers of `Api` act on the tables through `Gorm` and call the processor of
-- the object's type, which is the record `Processor`.
--
-- Bounds: numbers, sizes and times are natural numbers, but the total size of a bottle wraps
-- around at 64 bits; times are nanoseconds. Two loops have fuel, the paging loop of Download, a
-- unit a page, and Reprocess, a unit an object; running out is the error `still_running`, and one
-- unit more than there are new objects, or outdated ones, is enough.
--
-- Not modelled: text search and ranking, the filter by trust level, schema migrations, HTML pages
-- and charts, routing and middleware, the command line, configuration files, the search and
-- location handlers, cryptography, and logging. Go maps are lists in one order of their keys;
-- memory sharing between goroutines beyond the result slots is not modelled.
pub mod Prelude
pub mod Errors
pub mod Action
pub mod Types
pub mod Signatures
pub mod Device
pub mod Client
pub mod Db
pub mod Api
pub mod Webapp
pub mod Tests
