-- ===== src/Errors/Catalogue.antt =====
-- ndid-error/type.js: the error types by name.
mod Server
mod Client
mod Abci
use ndidplatform_api.Base.{String, List, ◌++◌}
use ndidplatform_api.Errors.Types.{ErrorType}
pub use Server.*
pub use Client.*
pub use Abci.*

abbrev pub catalogue : List (String × ErrorType)
catalogue =
    test_errors
    ++ (server_errors_1
        ++ (server_errors_2
            ++ (client_errors_1
                ++ (client_errors_2
                    ++ (client_errors_3
                        ++ (abci_server_errors
                            ++ (abci_client_errors_1
                                ++ (abci_client_errors_2 ++ abci_client_errors_3))))))))
